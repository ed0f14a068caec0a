-- ===== src/Error/Hex/Reads.antt =====
-- How far `hexdump_formatter` of bazelPro/src/lib/zerror.cc reads.
use ng.Base.{
  ℕ, zero, suc, ◌+◌, ◌-◌, ◌*◌, ◌/◌, ◌≤◌, ◌<◌, ◌≡◌, ◌≢◌, refl, arith, List, [], ◌∷◌, ◌++◌, Option,
  none, some, ◌>>=◌, Bool, false, ◌==◌, if◌then◌else◌, ◌⊎◌, inl, inr, ◌↔◌,
}
use ng.Base.{length, take, replicate, Bool-cases, leb, ltb, length-take, length-replicate}
use ng.Buffer.{Buffer}
use ng.Buffer.Laws.{Shows}
use ng.Format.Arg.{word, text, codes}
use ng.Format.Ftoa.{Double}
use ng.Error.{bufprintf_asyncsignalsafe}
use ng.Error.Prints.{Prints-nil, Prints-literal, Prints-s, Prints-02x}
use ng.Error.Writes.{Writes, Writes-nothing, Prints-Writes}
use ng.Error.Shown.{literal-Writes}
use ng.Error.Hex.{
  int_of_char, translate_to_ascii, start_line, end_line, hex_loop, last_line, hexdump_formatter,
}

-- Whether the bytes last for `left` more, of which `i` on the line were read, to the end of a line.
abbrev Lasts : ℕ → ℕ → List ℕ → Type 0
Lasts left i bytes = (i + left + 15) / 16 * 16 ≤ i + length bytes

module _ (isgraph : ℕ → Bool) where
  translate-reads :
      (bytes : List ℕ) (len : ℕ)
      → ((len ≤ length bytes)
          × ((a : List ℕ) × (translate_to_ascii isgraph bytes len ≡ some a) × (length a ≡ len)))
        ⊎ ((length bytes < len) × (translate_to_ascii isgraph bytes len ≡ none))
  unfolding translate_to_ascii
  translate-reads bytes zero = inl (omega arith, ([], refl, refl))
  translate-reads [] (suc len) = inr (omega arith, refl)
  translate-reads (c ∷ bytes) (suc len) = elim (translate-reads bytes len) [
    | inl (h, (a, e, l)) ↦
        inl (omega arith, ((if isgraph c then c else b'.') ∷ a, rw e refl, omega (arith, l)))
    | inr (h, e) ↦ inr (omega arith, rw e refl)
  ]

  module _ {F : Type 0} (fl : Double F) (turns : ℕ) where
    byte-Writes :
        (c : ℕ)
        → (t : List ℕ) × Writes
            (λ b. bufprintf_asyncsignalsafe fl turns b (codes "%02x ") (word (int_of_char c) ∷ []))
            t
    byte-Writes c =
        let end = Prints-literal fl turns (codes " ") refl (Prints-nil fl turns []) in
        let (t, value, p) = Prints-02x fl turns (int_of_char c) end in
        (t ++ codes " ", Prints-Writes fl turns p (omega arith))

    line-Writes :
        (ascii : List ℕ)
        → length ascii ≤ 16
        → (t : List ℕ) × Writes
            (λ b. bufprintf_asyncsignalsafe fl turns b (codes "  %s\n\t") (text ascii ∷ []))
            t
    line-Writes ascii h =
        let end = Prints-literal fl turns (codes "\n\t") refl (Prints-nil fl turns []) in
        let p =
          Prints-literal fl turns (codes "  ") refl (Prints-s fl turns ascii (omega arith) end) in
        (_, Prints-Writes fl turns p (omega arith))

    last_line-Writes :
        (i : ℕ) (ascii : List ℕ)
        → length ascii ≤ 16
        → (t : List ℕ) × Writes (last_line isgraph fl turns i ascii) t
    unfolding last_line
    last_line-Writes i ascii h = elim (Bool-cases (ltb 0 i)) [
      | inl e ↦
          let space : ℕ = b' ' in
          let padding = replicate (49 - i * 3) space in
          let short = length-replicate (49 - i * 3) space in
          let end = Prints-literal fl turns (codes "\n") refl (Prints-nil fl turns []) in
          let rest = Prints-s fl turns (take i ascii) (omega (arith, length-take i ascii)) end in
          let p =
            Prints-s fl turns padding (omega (arith, short))
              (Prints-literal fl turns (codes " ") refl rest) in
          rw e (_, Prints-Writes fl turns p (omega arith))
      | inr e ↦ rw e ([], Writes-nothing)
    ]

    end_line-Shows :
        (i : ℕ) (ascii : List ℕ) (n : ℕ) (before : List ℕ) (b : Buffer)
        → length ascii ≤ 16
        → 0 < n
        → Shows n before b
        → (c : Buffer) × (end_line isgraph fl turns i ascii b ≡ some (c, if leb 16 i then 0 else i))
          × ((t : List ℕ) × Shows n t c)
    unfolding end_line
    end_line-Shows i ascii n before b h pos v = elim (Bool-cases (leb 16 i)) [
      | inl e ↦
          let (t, w) = line-Writes ascii h in
          let (c, f, v') = w n before b pos v in rw e (c, rw f refl, (before ++ t, v'))
      | inr e ↦ rw e (b, refl, (before, v))
    ]

    -- What the loop leaves: some text in the buffer, and less than a line to be finished.
    record Left (n : ℕ) (r : Buffer × ℕ × List ℕ) : Type 0 where
      before : List ℕ
      shows : Shows n before r.0
      part : r.1 < 16
      ascii : length r.2 ≤ 16

    Result : ℕ → ℕ → ℕ → List ℕ → Option (Buffer × ℕ × List ℕ) → Type 0
    Result n left i bytes x =
        (Lasts left i bytes × ((r : Buffer × ℕ × List ℕ) × (x ≡ some r) × Left n r))
        ⊎ ((i + length bytes < (i + left + 15) / 16 * 16) × (x ≡ none))

    round-Result :
        (n left i c : ℕ) (bytes ascii before : List ℕ) (b : Buffer)
        → 0 < n
        → Shows n before b
        → i < 16
        → length ascii ≤ 16
        → 16 ≤ i + length (c ∷ bytes)
        → ((j : ℕ) (t : List ℕ) (d : Buffer)
            → Shows n t d
            → j < 16
            → (j ≢ 0 → 16 ≤ j + length bytes)
            → Result n left j bytes (hex_loop isgraph fl turns left j bytes ascii d))
        → Result n (suc left) i (c ∷ bytes) (do
          d ← bufprintf_asyncsignalsafe fl turns b (codes "%02x ") (word (int_of_char c) ∷ [])
          (d, j) ← end_line isgraph fl turns (i + 1) ascii d
          hex_loop isgraph fl turns left j bytes ascii d)
    unfolding Result
    round-Result n left i c bytes ascii before b pos v small l enough ih =
        let (t, w) = byte-Writes c in
        let (d, e, v') = w n before b pos v in
        let (d', e', (t', v'')) = end_line-Shows (i + 1) ascii n (before ++ t) d l pos v' in
        rw (e, e')
          (elim (Bool-cases (leb 16 (i + 1))) [
            | inl f ↦
                let full : i ≡ 15 = ground arith in
                rw f (
                  weaken 0 (omega arith) (λ h. omega arith) (λ h. omega arith)
                    (ih 0 t' d' v'' (omega arith) (λ ne. absurd (ne refl))))
            | inr f ↦
                let less : i + 1 < 16 = ground arith in
                rw f (
                  weaken (i + 1) (omega arith) (λ h. omega arith) (λ h. omega arith)
                    (ih (i + 1) t' d' v'' less (λ ne. omega arith)))
          ])
      where
        weaken :
            (j : ℕ) {x : Option (Buffer × ℕ × List ℕ)}
            → j ≤ i + 1
            → (Lasts left j bytes → Lasts (suc left) i (c ∷ bytes))
            → (j + length bytes < (j + left + 15) / 16 * 16
                → i + length (c ∷ bytes) < (i + suc left + 15) / 16 * 16)
            → Result n left j bytes x
            → Result n (suc left) i (c ∷ bytes) x
        weaken j le f g (inl (h, r)) = inl (f h, r)
        weaken j le f g (inr (h, e)) = inr (g h, e)

    loop-Result :
        (n left i : ℕ) (bytes ascii before : List ℕ) (b : Buffer)
        → 0 < n
        → Shows n before b
        → i < 16
        → length ascii ≤ 16
        → (i ≢ 0 → 16 ≤ i + length bytes)
        → Result n left i bytes (hex_loop isgraph fl turns left i bytes ascii b)
    unfolding hex_loop start_line Result
    loop-Result n zero zero bytes ascii before b pos v small l enough = inl (
      omega arith,
      ((b, 0, ascii), refl, record { before = before; shows = v; part = small; ascii = l }),
    )
    loop-Result n zero (suc i) bytes ascii before b pos v small l enough =
        let line : 16 ≤ suc i + length bytes = enough (λ e. absurd (omega arith)) in
        inl (
          omega arith,
          ((b, suc i, ascii), refl, record { before = before; shows = v; part = small; ascii = l }),
        )
    loop-Result n (suc left) zero [] ascii before b pos v small l enough =
        elim (translate-reads [] 16) [
          | inl (h, r) ↦ absurd (omega arith)
          | inr (h, e) ↦ inr (omega arith, rw e refl)
        ]
    loop-Result n (suc left) zero (c ∷ bytes) ascii before b pos v small l enough =
        elim (translate-reads (c ∷ bytes) 16) [
          | inl (h, (a, e, k)) ↦ rw e (
              round-Result n left 0 c bytes a before b pos v (omega arith) (omega arith)
                (omega arith)
                (λ j t d v' small' enough'.
                  loop-Result n left j bytes a t d pos v' small' (omega arith) enough'))
          | inr (h, e) ↦ inr (omega arith, rw e refl)
        ]
    loop-Result n (suc left) (suc i) [] ascii before b pos v small l enough =
        let line : 16 ≤ suc i + length {A = ℕ} [] = enough (λ e. absurd (omega arith)) in
        absurd (omega arith)
    loop-Result n (suc left) (suc i) (c ∷ bytes) ascii before b pos v small l enough =
        let inside : (suc i == 0) ≡ false = ground arith in
        rw inside (
          round-Result n left (suc i) c bytes ascii before b pos v small l
            (enough (λ e. absurd (omega arith)))
            (λ j t d v' small' enough'.
              loop-Result n left j bytes ascii t d pos v' small' l enough'))

    -- On a print buffer with room for a null byte, `hexdump_formatter` returns exactly when the bytes
    -- of the data can be read up to the next multiple of 16; so it reads up to 15 bytes behind the
    -- data.
    pub hexdump_formatter_iff :
        (n datalen : ℕ) (bytes before : List ℕ) (b : Buffer)
        → 0 < n
        → Shows n before b
        → ((c : Buffer) × (hexdump_formatter isgraph fl turns b bytes datalen ≡ some c))
          ↔ ((datalen + 15) / 16 * 16 ≤ length bytes)
    unfolding hexdump_formatter Result
    hexdump_formatter_iff n datalen bytes before b pos v =
        let start = literal-Writes fl turns (codes "error info       :\n\t") refl (omega arith) in
        let (d, e, v') = start n before b pos v in
        elim (loop-Result n datalen 0 bytes [] _ d pos v' (omega arith) (omega arith)
          (λ ne. absurd (ne refl))) [
            | inl (h, (r, f, l)) ↦
                let (t, w) = last_line-Writes r.1 r.2 l.ascii in
                let (c, g, v'') = w n l.before r.0 pos l.shows in
                rw (e, f, g) (λ k. omega (arith, h), λ k. (c, refl))
            | inr (h, f) ↦ rw (e, f) (λ k. absurd (cc), λ k. absurd (omega (arith, h, k)))
          ]
