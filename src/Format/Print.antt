-- ===== src/Format/Print.antt =====
-- `vsnprintf_asyncsignalsafe` of bazelPro/src/lib/snprintf_asyncsignalsafe.cc, one character of the
-- format after the other: `Mode` is the loop that the code is in when it reads the character.
use ng.Base.{
  ℕ, ◌+◌, ◌-◌, ◌*◌, ◌^◌, List, [], ◌∷◌, ◌++◌, Option, none, some, Bool, true, false, ◌&&◌,
}
use ng.Base.{ltb, leb, ◌==◌, if◌then◌else◌, ◌>>=◌, length, ℤ, pos, negsuc, pos_part}
use ng.Format.Arg.{Arg}
use ng.Format.Ftoa.{Double}
use ng.Format.Convert.{Spec, no_flags, fetch_both, convert, stored}

-- The outer loop; the loop of the flags; the digits of a width, behind the `.` and the digits of a
-- precision, all of which go back to the flags; and the second `l` of `ll`.
pub data Mode : Type 0 where
  plain : Mode
  flags : Spec → Mode
  width_digits : Spec → Mode
  after_dot : Spec → Mode
  prec_digits : Spec → Mode
  second_l : Spec → Mode

abbrev is_digit : ℕ → Bool
is_digit c = leb b'0' c && leb c b'9'

abbrev is_nonzero_digit : ℕ → Bool
is_nonzero_digit c = leb b'1' c && leb c b'9'

-- `width * 10 + (c - '0')` of an `int`; `none` is an overflow.
abbrev push_digit : ℤ → ℕ → Option ℤ
push_digit v c =
    let n = pos_part v * 10 + (c - b'0') in if ltb n (2 ^ 31) then some (pos n) else none

abbrev next_is_l : List ℕ → Bool
next_is_l [] = false
next_is_l (c ∷ fmt) = c == b'l'

-- The first `switch`, on `c`, with the format behind it; `none` leaves the loop.
unfoldable pub flag : Spec → ℕ → List ℕ → Option Mode
flag s c fmt =
    if c == b'h'
    then some (flags (record s { half = true }))
    else if c == b'l'
    then (if next_is_l fmt
        then some (second_l (record s { tlong = 2 }))
        else some (flags (record s { tlong = 1 })))
    else if c == b'-'
    then some (flags (record s { ljust = true }))
    else if c == b'+'
    then some (flags (record s { plus = true }))
    else if c == b' '
    then some (flags (record s { space = true }))
    else if c == b'0'
    then some (flags (record s { fillz = true }))
    else if c == b'#'
    then some (flags (record s { altform = true }))
    else if c == b'*'
    then some (flags (record s { width = negsuc 0 }))
    else if c == b'.'
    then some (after_dot (record s { prec = pos 0; prec_given = true }))
    else if is_nonzero_digit c
    then some (width_digits (record s { width = pos (c - b'0') }))
    else none

-- What one character of the format does: the loop that it leads to, the characters that are stored,
-- whether `%n` notes how many stand before them, and the arguments that are left.
pub record Step (F : Type 0) : Type 0 where
  pub mode : Mode
  pub chars : List ℕ
  pub counts : Bool
  pub args : List (Arg F)

-- The output: what stands before `bp`, the number `n` of characters, and what `%n` noted.
pub record Out : Type 0 where
  pub written : List ℕ
  pub n : ℕ
  pub noted : List ℕ

-- `X_STORE_PRT`; `room` is `be - buf`.
unfoldable pub store : ℕ → ℕ → Out → Out
store room c o =
    if ltb (length o.written) room
    then record o { written = o.written ++ c ∷ []; n = o.n + 1 }
    else record o { n = o.n + 1 }

unfoldable pub store_all : ℕ → List ℕ → Out → Out
store_all room [] o = o
store_all room (c ∷ cs) o = store_all room cs (store room c o)

abbrev pub note : Bool → Out → Out
note counts o = if counts then record o { noted = o.noted ++ length o.written ∷ [] } else o

module _ {F : Type 0} (fl : Double F) (turns : ℕ) where
  -- A letter behind the flags: `*` is fetched, then the directive is converted.
  unfoldable pub directive : Spec → ℕ → List (Arg F) → Option (Step F)
  directive s c args = do
    (s, args) ← fetch_both s args
    d ← convert fl turns c s args
    some (record { mode = plain; chars = stored s d; counts = d.counts; args = d.args })

  unfoldable pub flagged : Spec → ℕ → List ℕ → List (Arg F) → Option (Step F)
  flagged s c fmt args = elim (flag s c fmt) [
    | some m ↦ some (record { mode = m; chars = []; counts = false; args = args })
    | none ↦ directive s c args
  ]

  unfoldable pub step : Mode → ℕ → List ℕ → List (Arg F) → Option (Step F)
  step plain c fmt args =
      if c == b'%'
      then some (record { mode = flags no_flags; chars = []; counts = false; args = args })
      else some (record { mode = plain; chars = c ∷ []; counts = false; args = args })
  step (flags s) c fmt args = flagged s c fmt args
  step (width_digits s) c fmt args =
      if is_digit c
      then (do
        width ← push_digit (s.width) c
        some (record {
          mode = width_digits (record s { width = width });
          chars = [];
          counts = false;
          args = args;
        }))
      else flagged s c fmt args
  step (after_dot s) c fmt args =
      if c == b'*'
      then some (record {
        mode = flags (record s { prec = negsuc 0 });
        chars = [];
        counts = false;
        args = args;
      })
      else if is_digit c
      then (do
        prec ← push_digit (s.prec) c
        some (record {
          mode = prec_digits (record s { prec = prec });
          chars = [];
          counts = false;
          args = args;
        }))
      else flagged s c fmt args
  step (prec_digits s) c fmt args =
      if is_digit c
      then (do
        prec ← push_digit (s.prec) c
        some (record {
          mode = prec_digits (record s { prec = prec });
          chars = [];
          counts = false;
          args = args;
        }))
      else flagged s c fmt args
  step (second_l s) c fmt args =
      some (record { mode = flags s; chars = []; counts = false; args = args })

  -- At the end of the format: inside a directive, a `*` is still fetched.
  unfoldable pub at_end : Mode → List (Arg F) → Option (Unit {0})
  at_end plain args = some tt
  at_end (flags s) args = do r ← fetch_both s args; some tt
  at_end (width_digits s) args = do r ← fetch_both s args; some tt
  at_end (after_dot s) args = do r ← fetch_both s args; some tt
  at_end (prec_digits s) args = do r ← fetch_both s args; some tt
  at_end (second_l s) args = do r ← fetch_both s args; some tt

  -- The loops together, over what is left of the format.
  unfoldable pub print_from : ℕ → Mode → List ℕ → List (Arg F) → Out → Option Out
  print_from room mode [] args o = do r ← at_end mode args; some o
  print_from room mode (c ∷ fmt) args o = do
    r ← step mode c fmt args
    print_from room (r.mode) fmt (r.args) (store_all room (r.chars) (note r.counts o))

  -- The bytes from `buf` up to the null byte, and the returned number. Room for no byte at all is
  -- `none`: the null byte goes in front of `buf`; and so is a number of characters that the `int` `n`
  -- does not hold.
  unfoldable pub vsnprintf_asyncsignalsafe : ℕ → List ℕ × List (Arg F) → Option (List ℕ × ℕ)
  vsnprintf_asyncsignalsafe size call = if size == 0 then none else (do
    o ← print_from (size - 1) plain (call.0) (call.1) (record { written = []; n = 0; noted = [] })
    if ltb o.n (2 ^ 31) then some (o.written ++ 0 ∷ [], o.n) else none)
