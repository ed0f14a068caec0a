-- ===== src/Buffer/Laws.antt =====
-- What a sequence of calls of `bufprintf` (bazelPro/src/lib/bufprintf.cc) leaves in the array.
use ng.Base.{
  ℕ, suc, ◌+◌, ◌-◌, ◌≤◌, ◌<◌, ◌^◌, ◌≡◌, refl, sym, ap, ◌∙◌, subst, arith, List, [], ◌∷◌, ◌++◌, some,
  Option, All,
}
use ng.Base.{
  le→leb, lt→ltb, length, take, drop, set, length-append, length-take, append_assoc, append-nil,
}
use ng.Buffer.{Buffer, bufinit, format_at, bufprintf, bufprintf_all}
use ng.Buffer.Overwrite.{take-nil, take-front, advance, shown-append, overwrite, length-overwrite}

-- What is relied on of a formatter like `vsnprintf` in a call: in some room it writes as much of the
-- text as fits, and a null byte, and returns the length of the whole text, which an `int` holds.
pub record IsFormatted {A : Type 0} (formatter : ℕ → A → Option (List ℕ × ℕ)) (expand : A → List ℕ)
    (args : A) : Type 0 where
  pub prints :
      (room : ℕ)
      → 0 < room
      → formatter room args ≡ some (take (room - 1) (expand args) ++ (0 ∷ []), length (expand args))
  pub small : length (expand args) < 2 ^ 31

-- The buffer of `n` bytes shows a text, cut off where it does not fit, with its null byte.
pub record Shows (n : ℕ) (text : List ℕ) (b : Buffer) : Type 0 where
  pub size : n ≤ length b.output
  pub room : b.data_offset + b.available ≡ n
  pub at : b.data_offset ≡ length (take (n - 1) text)
  pub shown : take (suc b.data_offset) b.output ≡ take (n - 1) text ++ (0 ∷ [])

-- The texts of all calls, one after the other.
abbrev pub texts : {A : Type 0} → (A → List ℕ) → List A → List ℕ
texts expand [] = []
texts expand (args ∷ rest) = expand args ++ texts expand rest

pub bufinit-some :
    (output : List ℕ) (n : ℕ)
    → 0 < length output
    → bufinit output n ≡ some (record { output = set output 0 0; data_offset = 0; available = n })
unfolding bufinit
bufinit-some output n h = rw (lt→ltb 0 (length output) h) refl

pub start-Shows :
    (output : List ℕ) (n : ℕ)
    → 0 < n
    → n ≤ length output
    → Shows n [] (record { output = set output 0 0; data_offset = 0; available = n })
start-Shows [] n pos h = absurd (omega arith)
start-Shows (x ∷ xs) n pos h = record {
  size = h;
  room = omega arith;
  at = ap length (sym (take-nil (n - 1)));
  shown = ap (λ t. t ++ (0 ∷ [])) (sym (take-nil (n - 1)));
}

overwrite-shown :
    (n : ℕ) (text e : List ℕ) (b : Buffer)
    → Shows n text b
    → take
        (suc (b.data_offset + length (take (b.available - 1) e)))
        (overwrite b.data_offset (take (b.available - 1) e ++ (0 ∷ [])) b.output)
      ≡ take (n - 1) (text ++ e) ++ (0 ∷ [])
overwrite-shown n text e b v =
    let front = take (n - 1) text in
    let bytes = take (b.available - 1) e ++ (0 ∷ []) in
    let rest = drop (b.data_offset + length bytes) b.output in
    let whole : suc (b.data_offset + length (take (b.available - 1) e)) ≡ length (front ++ bytes) =
      omega (
        arith,
        length-append front bytes,
        length-append (take (b.available - 1) e) (0 ∷ []),
        v.at,
      ) in
    ap (λ k. take k (overwrite b.data_offset bytes b.output)) whole
    ∙ ap (λ x. take (length (front ++ bytes)) (x ++ (bytes ++ rest)))
        (take-front b.data_offset b.output front 0 (sym v.at) v.shown)
    ∙ shown-append (n - 1) (b.available - 1) text e rest
        (omega (arith, v.room, v.at, length-take (n - 1) text))

module _ {A : Type 0} (formatter : ℕ → A → Option (List ℕ × ℕ)) (expand : A → List ℕ) where
  pub bufprintf-Shows :
      (n : ℕ) (text : List ℕ) (b : Buffer) (args : A)
      → IsFormatted formatter expand args
      → 0 < n
      → Shows n text b
      → (r : Buffer × ℕ) × (bufprintf formatter b args ≡ some r) × Shows n (text ++ expand args) r.0
  unfolding bufprintf format_at
  bufprintf-Shows n text b args f pos v =
      let e = expand args in
      let d = b.data_offset in
      let cut = length-take (n - 1) text in
      let fits = take (b.available - 1) e in
      let fits_length = length-take (b.available - 1) e in
      let bytes = fits ++ (0 ∷ []) in
      let bytes_length = length-append fits (0 ∷ []) in
      let inside : d + length bytes ≤ length b.output = omega (arith, v.room, v.at, v.size) in
      let some_room : 0 < b.available = omega (arith, v.room, v.at) in
      let moved = advance b.available (length e) some_room f.small ∙ sym fits_length in
      (
        (
          record {
            output = overwrite d bytes b.output;
            data_offset = d + length fits;
            available = b.available - length fits;
          },
          length fits,
        ),
        rw (f.prints b.available some_room, moved, le→leb _ _ inside) refl,
        record {
          size = omega (arith, length-overwrite d bytes b.output inside, v.size);
          room = omega (arith, v.room, v.at);
          at = omega (arith, v.room, v.at, length-take (n - 1) (text ++ e), length-append text e);
          shown = overwrite-shown n text e b v;
        },
      )

  pub All-Shows :
      (n : ℕ) (text : List ℕ) (b : Buffer) (calls : List A)
      → All (IsFormatted formatter expand) calls
      → 0 < n
      → Shows n text b
      → (c : Buffer) × (bufprintf_all formatter b calls ≡ some c)
        × Shows n (text ++ texts expand calls) c
  unfolding bufprintf_all
  All-Shows n text b [] fs pos v = (b, refl, subst (λ t. Shows n t b) (sym (append-nil text)) v)
  All-Shows n text b (args ∷ rest) (f, fs) pos v =
      let (r, e, v') = bufprintf-Shows n text b args f pos v in
      let (c, e', v'') = All-Shows n (text ++ expand args) r.0 rest fs pos v' in
      (
        c,
        rw e e',
        subst (λ t. Shows n t c) (append_assoc text (expand args) (texts expand rest)) v'',
      )

  -- Any calls of `bufprintf` on a buffer that was initialised with room for at least one byte, and
  -- no more than the array has, return. The array then begins with the texts of all calls, one
  -- after the other, cut off where they do not fit, and a null byte; and what is left is at least
  -- one byte, the rest of the room. On each call `IsFormatted` holds.
  pub bufprintf_all-Shows :
      (output : List ℕ) (n : ℕ) (calls : List A)
      → All (IsFormatted formatter expand) calls
      → 0 < n
      → n ≤ length output
      → (start : Buffer) × (b : Buffer) × (bufinit output n ≡ some start)
        × (bufprintf_all formatter start calls ≡ some b)
        × (take (suc b.data_offset) b.output ≡ take (n - 1) (texts expand calls) ++ (0 ∷ []))
        × (b.data_offset + b.available ≡ n)
        × (0 < b.available)
  bufprintf_all-Shows output n calls fs pos h =
      let start : Buffer = record { output = set output 0 0; data_offset = 0; available = n } in
      let (b, e, v) = All-Shows n [] start calls fs pos (start-Shows output n pos h) in
      (
        start,
        b,
        bufinit-some output n (omega arith),
        e,
        v.shown,
        v.room,
        omega (arith, v.room, v.at, length-take (n - 1) (texts expand calls)),
      )
