-- ===== src/Error/Stack.antt =====
-- The call stack in an error record of bazelPro/src/lib/zerror.cc, which the formatter of the C library
-- prints.
use ng.Base.{
  ℕ, ◌+◌, ◌%◌, ◌^◌, ◌≤◌, ◌<◌, ◌≡◌, refl, arith, List, [], ◌∷◌, ◌++◌, Option, some, Bool, true,
  false,
}
use ng.Base.{length, take, length-take, All, suc, zero, subst, sym, append_assoc}
use ng.Buffer.{bufprintf_all}
use ng.Buffer.Laws.{IsFormatted, Shows, bufprintf-Shows}
use ng.Format.Arg.{Arg, word, codes}
use ng.Format.Ftoa.{Double}
use ng.Format.Itoa.Value.{read_digits}
use ng.Format.Numbers.{fill}
use ng.Error.{
  Process, Report, DataFormatter, max_callstack_depth, ip_calls, print_callstack, print_stack,
  error_format_record,
}
use ng.Error.Prints.{IsShort, no_percent}
use ng.Error.Writes.{Writes, Writes-nothing}
use ng.Error.Shown.{Numbers, record_text, error_format_record-composed}

-- Digits that read back as a number, filled by zeroes to `k` characters.
pub record IsFilled (base k n : ℕ) (t : List ℕ) : Type 0 where
  pub digits : List ℕ
  pub filled : t ≡ fill k true (length digits) ++ digits
  pub value : read_digits base 0 digits ≡ n

-- The line of the `j`-th address.
abbrev pub ip_line : List ℕ → List ℕ → List ℕ
ip_line number address =
    codes "  ip[" ++ (number ++ (codes "]      : 0x" ++ (address ++ codes "\n")))

abbrev ip_format : List ℕ
ip_format = codes "  ip[%02d]      : 0x%08lx\n"

module _ {F : Type 0} (vsnprintf : ℕ → List ℕ × List (Arg F) → Option (List ℕ × ℕ)) where
  -- In any room, a call writes as much of the text as fits, and a null byte, and returns the length of
  -- the text, which an `int` holds.
  abbrev pub Gives : List ℕ × List (Arg F) → List ℕ → Type 0
  Gives call t = IsFormatted vsnprintf (λ c. t) call

  -- What is relied on of `vsnprintf` of the C library: a format without directives is the text, and in
  -- that of an address `%02d` and `%08lx` stand for the decimal digits of the one argument and the
  -- hexadecimal digits of the other, filled by zeroes to 2 and 8 characters.
  pub record IsVsnprintf (process : Process) : Type 0 where
    pub literal : (lit : List ℕ) → no_percent lit ≡ true → length lit < 2 ^ 31 → Gives (lit, []) lit
    pub address :
        (j : ℕ)
        → j < max_callstack_depth
        → All
            (λ ip.
              (number : List ℕ) × (address : List ℕ) × IsFilled 10 2 j number
              × IsFilled 16 8 ip address
              × Gives (ip_format, word j ∷ word ip ∷ []) (ip_line number address))
            process.backtrace

-- The lines of the addresses from the `j`-th on.
pub data AreIpLines : ℕ → List ℕ → List ℕ → Type 0 where
  no_ip_lines : {j : ℕ} → AreIpLines j [] []
  one_ip_line :
      {j ip : ℕ} {ips : List ℕ} (number address t : List ℕ)
      → IsFilled 10 2 j number
      → IsFilled 16 8 ip address
      → AreIpLines (j + 1) ips t
      → AreIpLines j (ip ∷ ips) (ip_line number address ++ t)

-- The text for the call stack: none in a record that is made in a signal handler, else a title, a line
-- for each of the first 30 addresses, and an empty line.
pub data IsStack (process : Process) : Bool → List ℕ → Type 0 where
  left_out : IsStack process true []
  whole_stack :
      (t : List ℕ)
      → AreIpLines 0 (take max_callstack_depth process.backtrace) t
      → IsStack process false (codes "\nCall stack :\n" ++ (t ++ (codes "\n" ++ [])))

All-take : {A : Type 0} (P : A → Type 0) (n : ℕ) (xs : List A) → All P xs → All P (take n xs)
All-take P zero xs h = tt
All-take P (suc n) [] h = tt
All-take P (suc n) (x ∷ xs) h = (h.0, All-take P n xs h.1)

module _ {F : Type 0} (vsnprintf : ℕ → List ℕ × List (Arg F) → Option (List ℕ × ℕ)) where
  Writes-call :
      (call : List ℕ × List (Arg F)) (t : List ℕ) (rest : List (List ℕ × List (Arg F))) (s : List ℕ)
      → Gives vsnprintf call t
      → Writes (λ b. bufprintf_all vsnprintf b rest) s
      → Writes (λ b. bufprintf_all vsnprintf b (call ∷ rest)) (t ++ s)
  unfolding bufprintf_all
  Writes-call call t rest s f w n before b pos v =
      let (r, e, v') = bufprintf-Shows vsnprintf (λ c. t) n before b call f pos v in
      let (c, e', v'') = w n (before ++ t) r.0 pos v' in
      (c, rw e e', subst (λ x. Shows n x c) (append_assoc before t s) v'')

  module _ (process : Process) (c : IsVsnprintf vsnprintf process) where
    ip_calls-Writes :
        (j : ℕ) (ips : List ℕ) (end : List (List ℕ × List (Arg F))) (s : List ℕ)
        → j + length ips ≤ max_callstack_depth
        → ((k : ℕ)
            → k < max_callstack_depth
            → All
                (λ ip.
                  (number : List ℕ) × (address : List ℕ) × IsFilled 10 2 k number
                  × IsFilled 16 8 ip address
                  × Gives vsnprintf (ip_format, word k ∷ word ip ∷ []) (ip_line number address))
                ips)
        → Writes (λ b. bufprintf_all vsnprintf b end) s
        → (t : List ℕ) × AreIpLines j ips t
          × Writes (λ b. bufprintf_all vsnprintf b (ip_calls j ips ++ end)) (t ++ s)
    ip_calls-Writes j [] end s room h w = ([], no_ip_lines, w)
    ip_calls-Writes j (ip ∷ ips) end s room h w =
        let (number, address, is_number, is_address, gives) = (h j (omega arith)).0 in
        let (t, v, w') = ip_calls-Writes (j + 1) ips end s (omega arith) (λ k l. (h k l).1) w in
        let line = ip_line number address in
        (
          line ++ t,
          one_ip_line number address t is_number is_address v,
          subst (Writes (λ b. bufprintf_all vsnprintf b (ip_calls j (ip ∷ ips) ++ end)))
              (sym (append_assoc line t s))
              (Writes-call (ip_format, word j ∷ word ip ∷ []) line (ip_calls (j + 1) ips ++ end)
                (t ++ s) gives w'),
        )

    nothing_more : Writes (λ b. bufprintf_all vsnprintf b []) []
    unfolding bufprintf_all
    nothing_more = Writes-nothing

    print_callstack-Writes :
        (fl : Double F) (turns : ℕ)
        → (t : List ℕ) × IsStack process false t
          × Writes (print_callstack fl turns vsnprintf process) t
    unfolding print_callstack
    print_callstack-Writes fl turns =
        let ips = take max_callstack_depth process.backtrace in
        let end =
          Writes-call (codes "\n", []) (codes "\n") [] []
            (c.literal (codes "\n") refl (omega arith)) nothing_more in
        let (t, v, w) =
          ip_calls-Writes 0 ips ((codes "\n", []) ∷ []) (codes "\n" ++ [])
            (omega (arith, length-take max_callstack_depth process.backtrace))
            (λ k l. All-take _ max_callstack_depth process.backtrace (c.address k l)) end in
        (
          codes "\nCall stack :\n" ++ (t ++ (codes "\n" ++ [])),
          whole_stack t v,
          Writes-call (codes "\nCall stack :\n", []) (codes "\nCall stack :\n") _ _
              (c.literal (codes "\nCall stack :\n") refl (omega arith)) w,
        )

module _ {F : Type 0} (fl : Double F) (turns : ℕ)
    (vsnprintf : ℕ → List ℕ × List (Arg F) → Option (List ℕ × ℕ)) (process : Process) where
  print_stack-Writes :
      (async_signal_safe : Bool)
      → (async_signal_safe ≡ false → IsVsnprintf vsnprintf process)
      → (t : List ℕ) × IsStack process async_signal_safe t
        × Writes (print_stack fl turns vsnprintf process async_signal_safe) t
  print_stack-Writes true c = ([], left_out, Writes-nothing)
  print_stack-Writes false c = print_callstack-Writes vsnprintf process (c refl) fl turns

  -- `error_format_record`, on an array of 2048 bytes at least, returns, and counts `seq_num` on. The
  -- array then begins with the described record, cut off after 2047 characters, and a null byte. The
  -- record has `seq_num`, the low 32 bits of the thread and of the type, and the line as digits that
  -- read back as these, and, unless it is to be safe in signal handlers, the call stack: a title, a
  -- line with the number and the whole address for each of the first 30, and an empty line. This is on
  -- condition that the formatter of the data, which the caller gives, adds the text `shown` to any
  -- print buffer, that for the call stack `vsnprintf` of the C library formats as documented, and that
  -- the name of the thread, of the program and of the file are at most 2^24 long.
  pub error_format_record-shows :
      {D : Type 0} (r : Report D) (formatter : DataFormatter D) (seq_num : ℕ)
      (shown output : List ℕ)
      → 2048 ≤ length output
      → IsShort process.thread_name
      → IsShort r.app
      → IsShort r.file
      → Writes (λ b. formatter b r.error_data r.datalen) shown
      → (r.async_signal_safe ≡ false → IsVsnprintf vsnprintf process)
      → (stack : List ℕ) × (m : Numbers process r seq_num) × (out : List ℕ) × IsStack process
          r.async_signal_safe stack
        × (error_format_record fl turns vsnprintf process output r formatter seq_num
            ≡ some (out, (seq_num + 1) % 2 ^ 32))
        × (take (suc (length (take 2047 (record_text process r seq_num m shown stack)))) out
            ≡ take 2047 (record_text process r seq_num m shown stack) ++ (0 ∷ []))
  error_format_record-shows r formatter seq_num shown output room name app file v c =
      let (stack, is_stack, w) = print_stack-Writes r.async_signal_safe c in
      let (m, out, e, text) =
        error_format_record-composed fl turns vsnprintf process r formatter seq_num shown stack
          output room name app file v w in
      (stack, m, out, is_stack, e, text)
