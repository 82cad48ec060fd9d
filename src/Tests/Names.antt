-- ===== src/Tests/Names.antt =====
-- Names: expansion, encoding, and the round trip.
use c_ares.Base.{ℕ, ◌+◌, ◌≤◌, ◌≡◌, refl, arith, true, false, List, [], ◌∷◌, length, All}
use c_ares.Result.{ok, fail, ebadname, enotfound}
use c_ares.Result.Ensures.{Ensures}
use c_ares.Cmd.{put, malloc, ◌>>=◌}
use c_ares.Cmd.Safe.{Safe}
use c_ares.Wire.{peek}
use c_ares.Wire.Copy.{puts, strncpy, memset}
use c_ares.Text.{tolower, same_text, striendstr, is_onion_domain}
use c_ares.Name.{
  is_reservedch, isprint, is_hostnamech, is_indir, indir_offset, is_escaped, char_length,
  label_length, name_length_loop, name_length, expand_char, expand_label, expand_loop, terminate,
}
use c_ares.Name.Agrees.{IsBadName}
use c_ares.Name.Total.{NameFits, name_length-NameFits}
use c_ares.Expand.{expand_name_validated, expand_name, expand_name_for_response, expand_string}
use c_ares.Expand.Total.{
  IsNameError, IsResponseError, IsStringError, IsEncoded, expand_name_validated-Safe,
  expand_name_for_response-Safe, expand_string-Safe,
}
use c_ares.Query.{label_count, copy_label, name_loop, skip_root, write_query}
use c_ares.Query.Plain.{IsPlainLabel, dotted}
use c_ares.Query.Written.{message}
use c_ares.Create.{edns_size, create_query}
use c_ares.Create.Total.{IsQueryError, create_query-Safe}
use c_ares.Create.RoundTrip.{create_query-dotted, expand_name-create_query}

names_computed : ℕ
unfolding put malloc peek puts strncpy memset is_reservedch isprint is_hostnamech is_indir
    indir_offset is_escaped char_length label_length name_length_loop name_length expand_char
    expand_label expand_loop terminate expand_name_validated expand_name expand_name_for_response
    expand_string tolower same_text striendstr is_onion_domain label_count copy_label name_loop
    skip_root write_query create_query
names_computed = 0

-- a label with a dot and a byte 7 in it, then a pointer to "x"
abbrev odd_name : List ℕ
odd_name = 1 ∷ b'x' ∷ 0 ∷ 2 ∷ b'.' ∷ 7 ∷ 0xc0 ∷ 0 ∷ []

odd_name_run :
    expand_name odd_name 8 3 []
    ≡ ok ((b'\\' ∷ b'.' ∷ b'\\' ∷ b'0' ∷ b'0' ∷ b'7' ∷ b'.' ∷ b'x' ∷ [], 5), [])
unfolding names_computed
odd_name_run = refl

-- as a host name it is refused
odd_hostname : expand_name_validated true odd_name 8 3 [] ≡ fail ebadname
unfolding names_computed
odd_hostname = refl

-- a pointer to itself
pointer_loop : expand_name (0xc0 ∷ 0 ∷ []) 2 0 [] ≡ fail ebadname
unfolding names_computed
pointer_loop = refl

-- a pointer to the root label takes two bytes
indirect_root : expand_name (0 ∷ 0xc0 ∷ 0 ∷ []) 3 1 [] ≡ ok (([], 2), [])
unfolding names_computed
indirect_root = refl

string_run : expand_string (9 ∷ 2 ∷ b'h' ∷ b'i' ∷ []) 4 1 [] ≡ ok ((b'h' ∷ b'i' ∷ [], 3), [])
unfolding names_computed
string_run = refl

abbrev a_bc : List (List ℕ)
a_bc = (b'a' ∷ []) ∷ (b'b' ∷ b'c' ∷ []) ∷ []

onion_refused :
    create_query (b'x' ∷ b'.' ∷ b'O' ∷ b'n' ∷ b'i' ∷ b'o' ∷ b'n' ∷ []) 1 1 7 true 0 []
    ≡ fail enotfound
unfolding names_computed
onion_refused = refl

empty_label : create_query (b'a' ∷ b'.' ∷ b'.' ∷ b'b' ∷ []) 1 1 7 true 0 [] ≡ fail ebadname
unfolding names_computed
empty_label = refl

query_run :
    create_query (b'a' ∷ b'.' ∷ b'b' ∷ b'c' ∷ b'.' ∷ []) 1 28 0x1234 true 0 []
    ≡ ok (
      0x12 ∷ 0x34 ∷ 1 ∷ 0 ∷ 0 ∷ 1 ∷ 0 ∷ 0 ∷ 0 ∷ 0 ∷ 0 ∷ 0 ∷ 1 ∷ b'a' ∷ 2 ∷ b'b' ∷ b'c' ∷ 0 ∷ 0 ∷ 28
          ∷ 0 ∷ 1 ∷ [],
      [],
    )
unfolding names_computed
query_run = refl

a_bc-plain : All IsPlainLabel a_bc
unfolding names_computed
a_bc-plain = (
  record { plain = ((refl, refl), tt); filled = λ e. cc; short = omega arith },
  (
    record { plain = ((refl, refl), ((refl, refl), tt)); filled = λ e. cc; short = omega arith },
    tt,
  ),
)

a_bc_no_onion : is_onion_domain (dotted a_bc) ≡ false
unfolding names_computed
a_bc_no_onion = refl

expand_name-create_query_example :
    (create_query (dotted a_bc) 1 28 7 true 1280 >>= λ m. expand_name m (length m) 12) []
    ≡ ok ((b'a' ∷ b'.' ∷ b'b' ∷ b'c' ∷ [], 6), [])
expand_name-create_query_example =
    expand_name-create_query a_bc 1 28 7 true 1280 a_bc-plain a_bc_no_onion (omega arith)

create_query-dotted_example :
    create_query (dotted a_bc) 1 28 7 true 1280 [] ≡ ok (message a_bc 1 28 7 true 1280, [])
create_query-dotted_example =
    create_query-dotted a_bc 1 28 7 true 1280 a_bc-plain a_bc_no_onion (omega arith)

create_query-Safe_example :
    Safe IsQueryError
      (λ m. length m ≤ 271 + edns_size 1280)
      (create_query (b'a' ∷ b'\\' ∷ b'.' ∷ []) 1 1 7 false 1280)
create_query-Safe_example = create_query-Safe (b'a' ∷ b'\\' ∷ b'.' ∷ []) 1 1 7 false 1280

name_length-NameFits_example :
    Ensures IsBadName (NameFits false odd_name 8 3) (name_length false odd_name 8 3)
name_length-NameFits_example = name_length-NameFits false odd_name 8 3 (omega arith)

expand_name_validated-Safe_example :
    Safe IsNameError (IsEncoded 8 3) (expand_name_validated true odd_name 8 3)
expand_name_validated-Safe_example = expand_name_validated-Safe true odd_name 8 3 (omega arith)

expand_name_for_response-Safe_example :
    Safe IsResponseError (IsEncoded 8 3) (expand_name_for_response true odd_name 8 3)
expand_name_for_response-Safe_example =
    expand_name_for_response-Safe true odd_name 8 3 (omega arith)

expand_string-Safe_example :
    Safe IsStringError
      (λ x. (1 + x.1 ≤ 4) × (length x.0 + 1 ≡ x.1))
      (expand_string (9 ∷ 2 ∷ b'h' ∷ b'i' ∷ []) 4 1)
expand_string-Safe_example =
    expand_string-Safe (9 ∷ 2 ∷ b'h' ∷ b'i' ∷ []) 4 1 (omega arith) (omega arith)
