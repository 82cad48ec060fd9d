-- ===== src/Query/Written.antt =====
-- The bytes of the message for a dotted name.
use mathlib.Core.Path.{fun_ext}
use c_ares.Base.{
  ℕ, ◌≡◌, refl, sym, ◌∙◌, ap, arith, Bool, not, List, [], ◌∷◌, ◌++◌, length, ◌==◌, if◌then◌else◌,
  All, Bool-cases, inl, inr,
}
use c_ares.Result.{Result, ok, ◌>>=◌}
use c_ares.Cmd.{Buffer, put}
use c_ares.Wire.Copy.{puts, puts-append}
use c_ares.Query.{header, set16, opt_record, name_loop, skip_root, write_query}
use c_ares.Query.Plain.{IsPlainLabel, dotted, encoded, name_loop-dotted, plain_facts}

abbrev pub opt_bytes : ℕ → List ℕ
opt_bytes max_udp_size = if max_udp_size == 0 then [] else opt_record max_udp_size

abbrev pub question : ℕ → ℕ → List ℕ
question type dnsclass = set16 type ++ set16 dnsclass

-- the message of RFC 1035 for the labels
abbrev pub message : List (List ℕ) → ℕ → ℕ → ℕ → Bool → ℕ → List ℕ
message ls dnsclass type id rd max_udp_size =
    header id rd (not (max_udp_size == 0))
    ++ (encoded ls ++ (0 ∷ (question type dnsclass ++ opt_bytes max_udp_size)))

-- A dotted name is never the single dot.
skip_root-dotted : (ls : List (List ℕ)) → All IsPlainLabel ls → skip_root (dotted ls) ≡ dotted ls
unfolding skip_root
skip_root-dotted [] h = refl
skip_root-dotted ([] ∷ ls) h = absurd (h.0.filled refl)
skip_root-dotted ((c ∷ []) ∷ []) h = rw ((plain_facts c h.0.plain.0).0, skip_root) refl
skip_root-dotted ((c ∷ d ∷ l) ∷ []) h = refl
skip_root-dotted ((c ∷ []) ∷ m ∷ ls) h = refl
skip_root-dotted ((c ∷ d ∷ l) ∷ m ∷ ls) h = refl

-- Writes one after the other are one write.
then_puts :
    {f : Buffer → Result Buffer} (a b : List ℕ) (q : Buffer)
    → ((q' : Buffer) → f q' ≡ puts b q')
    → (puts a q >>= f) ≡ puts (a ++ b) q
then_puts a b q h = ap (◌>>=◌ (puts a q)) (fun_ext h) ∙ sym (puts-append a b q)

put_then :
    {f : Buffer → Result Buffer} (c : ℕ) (b : List ℕ) (q : Buffer)
    → ((q' : Buffer) → f q' ≡ puts b q')
    → (put c q >>= f) ≡ puts (c ∷ b) q
unfolding puts
put_then c b q h = ap (◌>>=◌ (put c q)) (fun_ext h)

write_opt :
    (size : ℕ) (q : Buffer)
    → (if size == 0 then ok q else puts (opt_record size) q) ≡ puts (opt_bytes size) q
unfolding puts
write_opt size q = elim (Bool-cases (size == 0)) [ inl e ↦ rw e refl | inr e ↦ rw e refl ]

pub write_query-dotted :
    (ls : List (List ℕ)) (dnsclass type id : ℕ) (rd : Bool) (max_udp_size : ℕ) (q : Buffer)
    → All IsPlainLabel ls
    → write_query (dotted ls) dnsclass type id rd max_udp_size q
      ≡ puts (message ls dnsclass type id rd max_udp_size) q
unfolding write_query
write_query-dotted ls dnsclass type id rd max_udp_size q h =
    then_puts (header id rd (not (max_udp_size == 0))) _ q λ q1.
      ap (λ m. m >>= rest) (name_of q1)
      ∙ then_puts (encoded ls) _ q1 λ q2. put_then 0 _ q2 λ q3.
        then_puts (set16 type) _ q3
          λ q4. then_puts (set16 dnsclass) (opt_bytes max_udp_size) q4 (write_opt max_udp_size)
  where
    name_of :
        (q1 : Buffer)
        → name_loop (length (dotted ls)) (skip_root (dotted ls)) q1 ≡ puts (encoded ls) q1
    name_of q1 =
        ap (λ t. name_loop (length (dotted ls)) t q1) (skip_root-dotted ls h)
        ∙ name_loop-dotted (length (dotted ls)) ls q1 h (omega arith)

    rest : Buffer → Result Buffer
    rest q2 = put 0 q2 >>= λ q3. puts (set16 type) q3 >>= λ q4. puts (set16 dnsclass) q4 >>= λ q5.
        if max_udp_size == 0 then ok q5 else puts (opt_record max_udp_size) q5
