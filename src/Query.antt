-- ===== src/Query.antt =====
-- src/lib/ares_create_query.c: the encoding of a question. The name is the list of its bytes before
-- the terminator, and a pointer into it is the list of what is left.
pub mod Plain
pub mod Written
pub mod Total
use c_ares.Base.{
  ℕ, zero, suc, ◌+◌, ◌/◌, ◌%◌, Bool, true, false, not, List, [], ◌∷◌, length, leb, ◌==◌,
  if◌then◌else◌,
}
use c_ares.Result.{Status, enotfound, ebadname, Result, ok, stuck, ◌>>=◌, ◌>>◌, guard}
use c_ares.Cmd.{Buffer, put}
use c_ares.Wire.Copy.{puts}

-- MAXLABEL and MAXCDNAME of include/ares_nameser.h, T_OPT, and EDNSFIXEDSZ of src/lib/ares_private.h
abbrev pub maxlabel : ℕ
maxlabel = 63

abbrev pub maxcdname : ℕ
maxcdname = 255

abbrev pub t_opt : ℕ
t_opt = 41

abbrev pub ednsfixedsz : ℕ
ednsfixedsz = 11

-- `DNS__SET16BIT`, of a value that is not negative
abbrev pub set16 : ℕ → List ℕ
set16 v = v / 256 % 256 ∷ v % 256 ∷ []

-- the header: the identifier, the RD bit, one question, and one additional record for EDNS
abbrev pub header : ℕ → Bool → Bool → List ℕ
header id rd edns =
    id / 256 % 256
    ∷ id % 256
    ∷ (if rd then 1 else 0)
    ∷ 0
    ∷ 0
    ∷ 1
    ∷ 0
    ∷ 0
    ∷ 0
    ∷ 0
    ∷ 0
    ∷ (if edns then 1 else 0)
    ∷ []

-- the number of bytes of a label, where a backslash stands for what follows it
unfoldable pub label_count : List ℕ → ℕ
label_count [] = 0
label_count (c ∷ []) = if c == b'.' then 0 else 1
label_count (c ∷ d ∷ p) = elim (c == b'.') [
  | true ↦ 0
  | false ↦ elim (c == b'\\') [ true ↦ suc (label_count p) | false ↦ suc (label_count (d ∷ p)) ]
]

-- the copy of a label: `p` at its end, and `q`
unfoldable pub copy_label : List ℕ → Buffer → Result (List ℕ × Buffer)
copy_label [] q = ok ([], q)
copy_label (c ∷ []) q = elim (c == b'.') [
  | true ↦ ok (c ∷ [], q)
  | false ↦ do q' ← put c q; ok ([], q')
]
copy_label (c ∷ d ∷ p) q = elim (c == b'.') [
  | true ↦ ok (c ∷ d ∷ p, q)
  | false ↦ elim (c == b'\\') [
    | true ↦ do q' ← put d q; copy_label p q'
    | false ↦ do q' ← put c q; copy_label (d ∷ p) q'
  ]
]

-- `while (*name)`: each round takes a byte at least.
unfoldable pub name_loop : ℕ → List ℕ → Buffer → Result Buffer
name_loop fuel [] q = ok q
name_loop zero (c ∷ name) q = stuck
name_loop (suc fuel) (c ∷ name) q = do
  guard (not (c == b'.')) ebadname
  guard (leb (label_count (c ∷ name)) maxlabel) ebadname
  q1 ← put (label_count (c ∷ name)) q
  (p, q2) ← copy_label (c ∷ name) q1
  elim p [ [] ↦ ok q2 | dot ∷ name' ↦ name_loop fuel name' q2 ]

-- a name of "." is the root
unfoldable pub skip_root : List ℕ → List ℕ
skip_root [] = []
skip_root (c ∷ []) = if c == b'.' then [] else c ∷ []
skip_root (c ∷ d ∷ name) = c ∷ d ∷ name

-- the eleven bytes of the OPT record
abbrev pub opt_record : ℕ → List ℕ
opt_record max_udp_size =
    0 ∷ 0 ∷ t_opt ∷ max_udp_size / 256 % 256 ∷ max_udp_size % 256 ∷ 0 ∷ 0 ∷ 0 ∷ 0 ∷ 0 ∷ 0 ∷ []

-- all that is written into the block
unfoldable pub write_query : List ℕ → ℕ → ℕ → ℕ → Bool → ℕ → Buffer → Result Buffer
write_query name dnsclass type id rd max_udp_size q0 = do
  q1 ← puts (header id rd (not (max_udp_size == 0))) q0
  q2 ← name_loop (length name) (skip_root name) q1
  q3 ← put 0 q2
  q4 ← puts (set16 type) q3
  q5 ← puts (set16 dnsclass) q4
  if max_udp_size == 0 then ok q5 else puts (opt_record max_udp_size) q5
