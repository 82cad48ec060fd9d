-- ===== src/Create/RoundTrip.antt =====
-- The message that `ares_create_query` makes for a dotted name, and its name read back.
use c_ares.Base.{
  ℕ, ◌+◌, ◌-◌, ◌≤◌, ◌<◌, ◌≡◌, ◌≢◌, refl, ◌∙◌, ap, arith, Bool, true, false, not, List, [], ◌∷◌,
  ◌++◌, length, length-append, leb, ◌==◌, if◌then◌else◌, All, none, drop_last,
}
use c_ares.Result.{ok}
use c_ares.Cmd.{Buffer, put, malloc, ◌>>=◌}
use c_ares.Wire.At.{At, At-peek, At-start}
use c_ares.Wire.Copy.{puts-ok}
use c_ares.Text.{is_onion_domain}
use c_ares.Name.{is_indir, name_fuel, name_length, expand_loop, terminate}
use c_ares.Name.Plain.{
  IsAllowed, any-IsAllowed, ended, drop_last-ended, name_length_loop-plain, expand_loop-plain,
}
use c_ares.Expand.{expand_name, expand_name_validated}
use c_ares.Query.{header, maxcdname}
use c_ares.Query.Plain.{IsPlainLabel, dotted, encoded, length_pos}
use c_ares.Query.Written.{message, question, opt_bytes, write_query-dotted}
use c_ares.Create.{edns_size, create_query}
use c_ares.Reply.{hfixedsz, qfixedsz}

length-ended : (ls : List (List ℕ)) → length (ended ls) ≡ length (encoded ls)
length-ended [] = refl
length-ended (l ∷ ls) =
    omega (arith, length-append l (b'.' ∷ ended ls), length-append l (encoded ls), length-ended ls)

pub length-dotted : (ls : List (List ℕ)) → length (encoded ls) ≤ length (dotted ls) + 1
length-dotted [] = omega arith
length-dotted (l ∷ []) = omega (arith, length-append l [])
length-dotted (l ∷ m ∷ ls) = omega (
  arith,
  length-append l (b'.' ∷ dotted (m ∷ ls)),
  length-append l (encoded (m ∷ ls)),
  length-dotted (m ∷ ls),
)

length-le-encoded : (ls : List (List ℕ)) → length ls ≤ length (encoded ls)
length-le-encoded [] = omega arith
length-le-encoded (l ∷ ls) = omega (arith, length-append l (encoded ls), length-le-encoded ls)

length-opt_bytes : (size : ℕ) → length (opt_bytes size) ≡ edns_size size
length-opt_bytes size = ground arith

pub length-message :
    (ls : List (List ℕ)) (dnsclass type id : ℕ) (rd : Bool) (max_udp_size : ℕ)
    → length (message ls dnsclass type id rd max_udp_size)
      ≡ length (encoded ls) + 17 + edns_size max_udp_size
length-message ls dnsclass type id rd size = omega (
  arith,
  length-append (encoded ls) (0 ∷ (question type dnsclass ++ opt_bytes size)),
  length-opt_bytes size,
)

module _ (ls : List (List ℕ)) (dnsclass type id : ℕ) (rd : Bool) (max_udp_size : ℕ)
    (plain : All IsPlainLabel ls) where
  -- With memory, for a name whose labels need no escapes, that is no onion name and whose encoding
  -- has at most 255 bytes, `create_query` makes the message of RFC 1035: the header with the
  -- identifier, the RD bit and the counts, the labels behind their lengths, the root label, the
  -- type and the class, and the OPT record if EDNS is asked for.
  pub create_query-dotted :
      is_onion_domain (dotted ls) ≡ false
      → length (encoded ls) + 1 ≤ maxcdname
      → create_query (dotted ls) dnsclass type id rd max_udp_size []
        ≡ ok (message ls dnsclass type id rd max_udp_size, [])
  unfolding create_query malloc
  create_query-dotted no_onion short =
      let size = length-message ls dnsclass type id rd max_udp_size in
      let fits : leb (length (message ls dnsclass type id rd max_udp_size))
            (maxcdname + hfixedsz + qfixedsz + edns_size max_udp_size)
          ≡ true =
        ground (arith, size) in
      let block : Buffer = record {
        room = length (dotted ls) + 2 + hfixedsz + qfixedsz + edns_size max_udp_size;
        text = [];
      } in
      rw
        (
          no_onion,
          write_query-dotted ls dnsclass type id rd max_udp_size _ plain,
          puts-ok (message ls dnsclass type id rd max_udp_size) block
              (length (dotted ls) + 1 - length (encoded ls))
              (omega (arith, size, length-dotted ls)),
          fits,
        )
        refl

-- The name at position 12 of such a message expands to the dotted name.
abbrev text : List (List ℕ) → List ℕ → List ℕ → List ℕ
text ls head post = head ++ (encoded ls ++ (0 ∷ post))

module _ (ls : List (List ℕ)) (head post : List ℕ) (plain : All IsPlainLabel ls) where
  starts : At (text ls head post) (length head) (encoded ls ++ (0 ∷ post))
  starts = At-start head (encoded ls ++ (0 ∷ post))

  enough : length ls < name_fuel (length (text ls head post))
  enough = omega (
    arith,
    length-le-encoded ls,
    length-append head (encoded ls ++ (0 ∷ post)),
    length-append (encoded ls) (0 ∷ post),
  )

  name_length-plain :
      (hostname : Bool)
      → IsAllowed hostname ls
      → name_length hostname (text ls head post) (length (text ls head post)) (length head)
        ≡ ok (if length (ended ls) == 0 then length (ended ls) else length (ended ls) - 1)
  unfolding name_length
  name_length-plain hostname a =
      let inside : leb (length (text ls head post)) (length head) ≡ false = ground (
        arith,
        length-append head (encoded ls ++ (0 ∷ post)),
        length-append (encoded ls) (0 ∷ post),
      ) in
      rw
        (
          inside,
          name_length_loop-plain hostname (name_fuel (length (text ls head post))) (length head) 0 0
              ls post starts plain a enough,
        )
        (let e : 0 + length (ended ls) ≡ length (ended ls) = omega arith in
          ap (λ (n : ℕ). ok (if n == 0 then n else n - 1)) e)

terminate-ok :
    (r : ℕ) (t : List ℕ) → t ≢ [] → terminate (record { room = r; text = t }) ≡ ok (drop_last t)
unfolding terminate
terminate-ok r [] h = absurd (h refl)
terminate-ok r (x ∷ t) h = refl

-- a name with a label
module _ (l : List ℕ) (ls : List (List ℕ)) (head post : List ℕ)
    (plain : All IsPlainLabel (l ∷ ls)) where
  abbrev chars : List ℕ
  chars = ended (l ∷ ls)

  two_chars : 2 ≤ length chars
  two_chars = omega (arith, length-append l (b'.' ∷ ended ls), length_pos l plain.0.filled)

  name_length-filled :
      (hostname : Bool)
      → IsAllowed hostname (l ∷ ls)
      → name_length hostname
          (text (l ∷ ls) head post)
          (length (text (l ∷ ls) head post))
          (length head)
        ≡ ok (length chars - 1)
  name_length-filled hostname a =
      let nz : (length chars == 0) ≡ false = ground (arith, two_chars) in
      name_length-plain (l ∷ ls) head post plain hostname a ∙ rw nz refl

  expand_loop-filled :
      expand_loop
        (text (l ∷ ls) head post)
        (length head)
        (name_fuel (length (text (l ∷ ls) head post)))
        (length head)
        (record { room = length chars - 1 + 1; text = [] })
        none
      ≡ ok (record { room = 0; text = chars }, length (encoded (l ∷ ls)) + 1)
  expand_loop-filled =
      expand_loop-plain (length head) _ (length head)
        (record { room = length chars - 1 + 1; text = [] }) (l ∷ ls) post
        (starts (l ∷ ls) head post plain) plain (enough (l ∷ ls) head post plain)
      ∙ rw
          (puts-ok chars (record { room = length chars - 1 + 1; text = [] }) 0
            (omega (arith, two_chars)))
          (let e : length head + length (encoded (l ∷ ls)) + 1 - length head
                ≡ length (encoded (l ∷ ls)) + 1 =
              omega arith in
            λ i. ok (record { room = 0; text = chars }, e i))

  chars-ne-nil : chars ≢ []
  chars-ne-nil e = absurd (omega (arith, two_chars, ap length e))

pub expand_name_validated-plain :
    (hostname : Bool) (ls : List (List ℕ)) (head post : List ℕ)
    → All IsPlainLabel ls
    → IsAllowed hostname ls
    → expand_name_validated hostname
        (text ls head post)
        (length (text ls head post))
        (length head)
        []
      ≡ ok ((dotted ls, length (encoded ls) + 1), [])
unfolding expand_name_validated malloc
expand_name_validated-plain hostname [] head post plain a =
    rw (name_length-plain [] head post plain hostname a, At-peek (starts [] head post plain))
      (unfold put is_indir in refl)
expand_name_validated-plain hostname (l ∷ ls) head post plain a =
    let nz : (length (ended (l ∷ ls)) - 1 == 0) ≡ false =
      ground (arith, two_chars l ls head post plain) in
    rw
      (
        name_length-filled l ls head post plain hostname a,
        nz,
        expand_loop-filled l ls head post plain,
        terminate-ok 0 (ended (l ∷ ls)) (chars-ne-nil l ls head post plain),
        drop_last-ended (l ∷ ls),
      )
      refl

pub expand_name-plain :
    (ls : List (List ℕ)) (head post : List ℕ)
    → All IsPlainLabel ls
    → expand_name (text ls head post) (length (text ls head post)) (length head) []
      ≡ ok ((dotted ls, length (encoded ls) + 1), [])
unfolding expand_name
expand_name-plain ls head post plain =
    expand_name_validated-plain false ls head post plain (any-IsAllowed ls)

-- With memory, for labels that need no escapes, no onion name and an encoding of at most 255
-- bytes: the name in the message that `create_query` makes, at position 12, is read back by
-- `expand_name` as the name that was given, and its encoded length is that of the labels and the
-- root label.
pub expand_name-create_query :
    (ls : List (List ℕ)) (dnsclass type id : ℕ) (rd : Bool) (max_udp_size : ℕ)
    → All IsPlainLabel ls
    → is_onion_domain (dotted ls) ≡ false
    → length (encoded ls) + 1 ≤ maxcdname
    → (create_query (dotted ls) dnsclass type id rd max_udp_size >>= λ m.
          expand_name m (length m) hfixedsz)
        []
      ≡ ok ((dotted ls, length (encoded ls) + 1), [])
expand_name-create_query ls dnsclass type id rd max_udp_size plain no_onion short =
    rw (create_query-dotted ls dnsclass type id rd max_udp_size plain no_onion short) (
      expand_name-plain ls (header id rd (not (max_udp_size == 0)))
        (question type dnsclass ++ opt_bytes max_udp_size) plain)
