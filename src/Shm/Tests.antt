-- ===== src/Shm/Tests.antt =====
-- Concrete runs of the shared ring of bazelPro/src/tmp/tmp.cc.
use ng.Base.{
  ℕ, ◌+◌, ◌-◌, ◌%◌, ◌≡◌, refl, arith, List, [], ◌∷◌, some, pos, none, take, replicate,
  length-replicate,
}
use ng.Base.{get_elem?, All-replicate, length, ◌⊎◌}
use ng.Shm.Defs.{
  Context, Wrapper, sizeof_agv_info, cache_buf_max, zero_slot, zeroed, put, get, attach, put_writes,
  run_writes,
}
use ng.Shm.Ring.{IsContext, IsSized}
use ng.Shm.Publish.{stored, get-put, get_during_put}
use ng.Shm.Recovery.{Delivers, get_sound}
use ng.Shm.Attach.{attach_lem, IsTagged}
use ng.Shm.Index.{put_all, put_all_keeps, get_bad_index}

abbrev zeros : List ℕ
zeros = replicate sizeof_agv_info 0

abbrev zeros-sized : length zeros ≡ sizeof_agv_info
zeros-sized = length-replicate {A = ℕ} sizeof_agv_info 0

abbrev start : Context
start = record {
  helper = record { tag1 = 0x5A5A5A5A; version = 1; tag2 = 0xA5A5A5A5; index = 14 };
  wrapper = replicate 15 zero_slot;
}

start-IsContext : IsContext start
start-IsContext = record {
  slots = length-replicate 15 zero_slot;
  current = omega arith;
  sized = All-replicate IsSized 15 zero_slot zeros-sized;
}

agv_info_bytes : sizeof_agv_info ≡ 2464
agv_info_bytes = refl

get-put_example :
    (c : Context) × (put start 100 zeros ≡ some (c, pos 0))
    × IsContext c
    × (get c 101 1 [] ≡ some (zeros, pos 0))
get-put_example = get-put start 100 101 1 zeros [] start-IsContext zeros-sized (omega arith)

get_during_put_example :
    get (run_writes (take 3 (put_writes 0 100 7 zeros)) start) 101 1 [] ≡ get start 101 1 []
get_during_put_example =
    get_during_put start 3 0 100 7 101 1 zeros [] start-IsContext zeros-sized refl (omega arith)

get_sound_example :
    (w : Wrapper) × (former : Wrapper) × (p : List ℕ) × (get_elem? start.wrapper start.helper.index
      ≡ some w)
    × (get_elem? start.wrapper ((start.helper.index + 14) % cache_buf_max) ≡ some former)
    × Delivers 5 1 w former p (get start 5 1 [])
get_sound_example = get_sound start 5 1 [] start-IsContext

put_all_keeps_example :
    (d : Context) × (put_all start ((100, zeros) ∷ (101, zeros) ∷ []) ≡ some d)
    × IsContext d
    × (get_elem? d.wrapper ((d.helper.index + cache_buf_max - 1) % cache_buf_max)
        ≡ some (stored 100 zeros))
put_all_keeps_example =
    put_all_keeps start [] ((101, zeros) ∷ []) 100 zeros start-IsContext tt zeros-sized
      (zeros-sized, tt) (omega arith)

abbrev damaged : Context
damaged = record start {
  helper = record { tag1 = 0x5A5A5A5A; version = 1; tag2 = 0xA5A5A5A5; index = 0xffff_fff0 };
}

get_bad_index_example : get damaged 5 1 [] ≡ none
get_bad_index_example = get_bad_index damaged 5 1 [] (omega arith) (omega arith)

-- A segment that was just created holds zeros.
attach_lem_example :
    IsTagged (attach zeroed)
    × (attach (attach zeroed) ≡ attach zeroed)
    × (((attach zeroed ≡ zeroed) × IsTagged zeroed)
        ⊎ (¬ IsTagged zeroed × IsContext (attach zeroed)))
attach_lem_example = attach_lem zeroed
