-- ===== src/Error.antt =====
-- The error records of bazelPro/src/lib/zerror.cc, over the print buffer and its two formatters.
pub mod Prints
pub mod Writes
pub mod Hex
pub mod Siginfo
pub mod Fatal
pub mod Shown
pub mod Stack
mod Tests
use ng.Base.{
  ℕ, zero, suc, ◌+◌, ◌%◌, ◌^◌, List, [], ◌∷◌, ◌++◌, Option, none, some, ◌>>=◌, Bool, true, false,
  ◌==◌, if◌then◌else◌, take,
}
use ng.Buffer.{Buffer, bufinit, bufprintf, bufprintf_all}
use ng.Format.Arg.{Arg, word, text, codes}
use ng.Format.Ftoa.{Double}
use ng.Format.Print.{vsnprintf_asyncsignalsafe}

abbrev pub error_max_record_size : ℕ
error_max_record_size = 2048

abbrev pub max_callstack_depth : ℕ
max_callstack_depth = 30

-- What the record takes from the process: the calling thread, and what `backtrace` finds.
pub record Process : Type 0 where
  pub thread_id : ℕ
  pub thread_name : List ℕ
  pub backtrace : List ℕ

-- The arguments of a record; `error_data` is what the pointer `data` leads to, of a type `D`.
pub record Report (D : Type 0) : Type 0 where
  pub type : ℕ
  pub app : List ℕ
  pub file : List ℕ
  pub line : ℕ
  pub async_signal_safe : Bool
  pub error_data : D
  pub datalen : ℕ

-- `error_data_formatter_t`
abbrev pub DataFormatter : Type 0 → Type 0
DataFormatter D = Buffer → D → ℕ → Option Buffer

-- The calls for the addresses from the `j`-th on.
abbrev pub ip_calls : {F : Type 0} → ℕ → List ℕ → List (List ℕ × List (Arg F))
ip_calls j [] = []
ip_calls j (ip ∷ ips) =
    (codes "  ip[%02d]      : 0x%08lx\n", word j ∷ word ip ∷ []) ∷ ip_calls (j + 1) ips

-- The calls of `print_callstack`, which skips no address.
abbrev pub callstack_calls : {F : Type 0} → Process → List (List ℕ × List (Arg F))
callstack_calls process =
    (codes "\nCall stack :\n", [])
    ∷ (ip_calls 0 (take max_callstack_depth process.backtrace) ++ ((codes "\n", []) ∷ []))

module _ {F : Type 0} (fl : Double F) (turns : ℕ) where
  pub bufprintf_asyncsignalsafe : Buffer → List ℕ → List (Arg F) → Option Buffer
  bufprintf_asyncsignalsafe b format args = do
    r ← bufprintf (vsnprintf_asyncsignalsafe fl turns) b (format, args)
    some (r.0)

  pub string_formatter : DataFormatter (List ℕ)
  string_formatter out_buf error_data datalen =
      bufprintf_asyncsignalsafe out_buf (codes "error info       : %s\n") (text error_data ∷ [])

  -- `vsnprintf` is the one of the C library.
  module _ (vsnprintf : ℕ → List ℕ × List (Arg F) → Option (List ℕ × ℕ)) (process : Process) where
    pub print_callstack : Buffer → Option Buffer
    print_callstack out_buf = bufprintf_all vsnprintf out_buf (callstack_calls process)

    abbrev print_type : ℕ → Buffer → Option Buffer
    print_type zero b = some b
    print_type (suc type) b =
        bufprintf_asyncsignalsafe b (codes "error type       : %lx\n") (word (suc type) ∷ [])

    abbrev print_stack : Bool → Buffer → Option Buffer
    print_stack true b = some b
    print_stack false b = print_callstack b

    -- The prints of a record into its buffer.
    pub print_record : {D : Type 0} → Report D → DataFormatter D → ℕ → Buffer → Option Buffer
    print_record r formatter seq_num b = do
      b ← bufprintf_asyncsignalsafe b (codes "************* ERROR RECORD *************\n") []
      b ← bufprintf_asyncsignalsafe b (codes "seq-number       : %08x\n") (word seq_num ∷ [])
      b ←
          bufprintf_asyncsignalsafe b (codes "error thread     : %s-#%08lx\n")
            (text (process.thread_name) ∷ word (process.thread_id) ∷ [])
      b ← print_type (r.type) b
      b ← bufprintf_asyncsignalsafe b (codes "user name        : %s\n") (text (r.app) ∷ [])
      b ← bufprintf_asyncsignalsafe b (codes "file name        : %s\n") (text (r.file) ∷ [])
      b ← bufprintf_asyncsignalsafe b (codes "line number      : %d\n") (word (r.line) ∷ [])
      b ← formatter b (r.error_data) (r.datalen)
      b ← print_stack (r.async_signal_safe) b
      bufprintf_asyncsignalsafe b (codes "****************** END *****************\n") []

    -- The new array and the new `seq_num`, of 32 bits; the returned number is always 0.
    unfoldable pub error_format_record :
        {D : Type 0} → List ℕ → Report D → DataFormatter D → ℕ → Option (List ℕ × ℕ)
    error_format_record output r formatter seq_num = do
      b ← bufinit output error_max_record_size
      b ← print_record r formatter seq_num b
      some (b.output, (seq_num + 1) % 2 ^ 32)

    pub error_custom : {D : Type 0} → List ℕ → Report D → DataFormatter D → ℕ → Option (List ℕ × ℕ)
    error_custom output r formatter seq_num =
        error_format_record output (record r { type = 0 }) formatter seq_num
