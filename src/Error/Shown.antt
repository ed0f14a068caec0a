-- ===== src/Error/Shown.antt =====
-- What an error record of bazelPro/src/lib/zerror.cc looks like, described apart from the code.
use ng.Base.{
  ℕ, zero, suc, ◌+◌, ◌%◌, ◌^◌, ◌≤◌, ◌<◌, ◌≡◌, refl, subst, arith, List, [], ◌∷◌, ◌++◌, Option, some,
  true, false,
}
use ng.Base.{length, take, append-nil, int32, set}
use ng.Dump.{c_string}
use ng.Buffer.{Buffer}
use ng.Buffer.Laws.{start-Shows, bufinit-some}
use ng.Format.Arg.{Arg, text, codes}
use ng.Format.Ftoa.{Double}
use ng.Error.{
  Process, Report, DataFormatter, error_format_record, print_record, print_type, print_stack,
  bufprintf_asyncsignalsafe,
}
use ng.Error.Prints.{
  IsInt, IsNumber, IsShort, no_percent, Prints-nil, Prints-literal, Prints-s, Prints-d, Prints-lx,
  Prints-08x, Prints-08lx,
}
use ng.Error.Writes.{Writes, Writes-nothing, Writes-then, Prints-Writes}

-- The texts of the numbers of a record.
pub record Numbers {D : Type 0} (process : Process) (r : Report D) (seq_num : ℕ) : Type 0 where
  pub seq : List ℕ
  pub thread : List ℕ
  pub kind : List ℕ
  pub line : List ℕ
  pub seq_value : IsNumber 16 8 true (seq_num % 2 ^ 32) seq
  pub thread_value : IsNumber 16 8 true (process.thread_id % 2 ^ 32) thread
  pub kind_value : IsNumber 16 0 false (r.type % 2 ^ 32) kind
  pub line_value : IsInt (int32 (r.line % 2 ^ 32)) line

-- The line of the type, which a record of type 0 does not have.
abbrev pub type_line : ℕ → List ℕ → List ℕ
type_line zero kind = []
type_line (suc type) kind = codes "error type       : " ++ (kind ++ codes "\n")

-- A record with `shown` for its data, and `stack` for its call stack.
abbrev pub record_text :
    {D : Type 0} (process : Process) (r : Report D) (seq_num : ℕ)
    → Numbers process r seq_num
    → List ℕ
    → List ℕ
    → List ℕ
record_text process r seq_num m shown stack =
    codes "************* ERROR RECORD *************\n"
    ++ ((codes "seq-number       : " ++ (m.seq ++ codes "\n"))
        ++ ((codes "error thread     : "
              ++ (c_string process.thread_name ++ (codes "-#" ++ (m.thread ++ codes "\n"))))
            ++ (type_line r.type m.kind
                ++ ((codes "user name        : " ++ (c_string r.app ++ codes "\n"))
                    ++ ((codes "file name        : " ++ (c_string r.file ++ codes "\n"))
                        ++ ((codes "line number      : " ++ (m.line ++ codes "\n"))
                            ++ (shown
                                ++ (stack
                                    ++ codes "****************** END *****************\n"))))))))

module _ {F : Type 0} (fl : Double F) (turns : ℕ) where
  pub literal-Writes :
      (lit : List ℕ)
      → no_percent lit ≡ true
      → length lit < 2 ^ 31
      → Writes (λ b. bufprintf_asyncsignalsafe fl turns b lit []) lit
  literal-Writes lit h short =
      let p = Prints-literal fl turns lit h (Prints-nil fl turns []) in
      let whole = append-nil lit in
      subst (λ t. Writes (λ b. bufprintf_asyncsignalsafe fl turns b t []) t) whole
        (Prints-Writes fl turns p (omega arith))

  -- A line with a name and a string.
  string-Writes :
      (lit p : List ℕ)
      → no_percent lit ≡ true
      → length lit ≤ 64
      → IsShort p
      → Writes
          (λ b. bufprintf_asyncsignalsafe fl turns b (lit ++ codes "%s\n") (text p ∷ []))
          (lit ++ (c_string p ++ codes "\n"))
  string-Writes lit p h small short =
      let end = Prints-literal fl turns (codes "\n") refl (Prints-nil fl turns []) in
      Prints-Writes fl turns (Prints-literal fl turns lit h (Prints-s fl turns p short end))
        (omega arith)

  print_type-Writes :
      (vsnprintf : ℕ → List ℕ × List (Arg F) → Option (List ℕ × ℕ)) (process : Process) (type : ℕ)
      → (kind : List ℕ) × IsNumber 16 0 false (type % 2 ^ 32) kind
        × Writes (print_type fl turns vsnprintf process type) (type_line type kind)
  print_type-Writes vsnprintf process zero =
      let end = Prints-literal fl turns (codes "\n") refl (Prints-nil fl turns []) in
      let (kind, value, p) = Prints-lx fl turns zero end in (kind, value, Writes-nothing)
  print_type-Writes vsnprintf process (suc type) =
      let end = Prints-literal fl turns (codes "\n") refl (Prints-nil fl turns []) in
      let (kind, value, p) = Prints-lx fl turns (suc type) end in
      (
        kind,
        value,
        Prints-Writes fl turns (Prints-literal fl turns (codes "error type       : ") refl p)
            (omega arith),
      )

module _ {F : Type 0} (fl : Double F) (turns : ℕ)
    (vsnprintf : ℕ → List ℕ × List (Arg F) → Option (List ℕ × ℕ)) (process : Process) {D : Type 0}
    (r : Report D) (formatter : DataFormatter D) (seq_num : ℕ) (shown stack : List ℕ) where
  print_record-Writes :
      IsShort process.thread_name
      → IsShort r.app
      → IsShort r.file
      → Writes (λ b. formatter b r.error_data r.datalen) shown
      → Writes (print_stack fl turns vsnprintf process r.async_signal_safe) stack
      → (m : Numbers process r seq_num) × Writes
          (print_record fl turns vsnprintf process r formatter seq_num)
          (record_text process r seq_num m shown stack)
  unfolding print_record
  print_record-Writes name app file v w =
      let end = Prints-literal fl turns (codes "\n") refl (Prints-nil fl turns []) in
      let (seq, seq_value, seq_line) = Prints-08x fl turns seq_num end in
      let (thread, thread_value, thread_line) = Prints-08lx fl turns process.thread_id end in
      let (kind, kind_value, type_written) = print_type-Writes fl turns vsnprintf process r.type in
      let (line, line_value, line_line) = Prints-d fl turns r.line end in
      let whole_thread = Prints-literal fl turns (codes "error thread     : ") refl (
        Prints-s fl turns process.thread_name name
          (Prints-literal fl turns (codes "-#") refl thread_line)) in
      (
        record {
          seq = seq;
          thread = thread;
          kind = kind;
          line = line;
          seq_value = seq_value;
          thread_value = thread_value;
          kind_value = kind_value;
          line_value = line_value;
        },
        Writes-then
            (literal-Writes fl turns (codes "************* ERROR RECORD *************\n") refl
              (omega arith))
            (Writes-then
              (Prints-Writes fl turns
                (Prints-literal fl turns (codes "seq-number       : ") refl seq_line) (omega arith))
              (Writes-then (Prints-Writes fl turns whole_thread (omega arith)) (
                Writes-then type_written (
                  Writes-then
                    (string-Writes fl turns (codes "user name        : ") r.app refl (omega arith)
                      app)
                    (Writes-then
                      (string-Writes fl turns (codes "file name        : ") r.file refl
                        (omega arith) file)
                      (Writes-then
                        (Prints-Writes fl turns
                          (Prints-literal fl turns (codes "line number      : ") refl line_line)
                          (omega arith))
                        (Writes-then v (
                          Writes-then w (
                            literal-Writes fl turns
                              (codes "****************** END *****************\n") refl
                              (omega arith)))))))))),
      )

  -- `error_format_record`, on an array of 2048 bytes at least, returns, and counts `seq_num` on. The
  -- array then begins with the described record, cut off after 2047 characters, and a null byte. The
  -- record has `seq_num`, the low 32 bits of the thread and of the type, and the line as digits that
  -- read back as these. This is on condition that the formatter of the data adds the text `shown` to
  -- any print buffer, the printing of the call stack, if there is one, the text `stack`, and the name
  -- of the thread, of the program and of the file are at most 2^24 long.
  pub error_format_record-composed :
      (output : List ℕ)
      → 2048 ≤ length output
      → IsShort process.thread_name
      → IsShort r.app
      → IsShort r.file
      → Writes (λ b. formatter b r.error_data r.datalen) shown
      → Writes (print_stack fl turns vsnprintf process r.async_signal_safe) stack
      → (m : Numbers process r seq_num) × (out : List ℕ) × (error_format_record fl turns vsnprintf
            process output r formatter seq_num
          ≡ some (out, (seq_num + 1) % 2 ^ 32))
        × (take (suc (length (take 2047 (record_text process r seq_num m shown stack)))) out
            ≡ take 2047 (record_text process r seq_num m shown stack) ++ (0 ∷ []))
  unfolding error_format_record
  error_format_record-composed output room name app file v w =
      let (m, written) = print_record-Writes name app file v w in
      let start : Buffer = record { output = set output 0 0; data_offset = 0; available = 2048 } in
      let (b, e, shows) =
        written 2048 [] start (omega arith) (start-Shows output 2048 (omega arith) room) in
      let text = record_text process r seq_num m shown stack in
      (
        m,
        b.output,
        rw (bufinit-some output 2048 (omega arith), e) refl,
        subst (λ k. take (suc k) b.output ≡ take 2047 text ++ (0 ∷ [])) shows.at shows.shown,
      )
