-- ===== src/Addr/Parses/Run.antt =====
-- All answers of a well-formed reply, as `ares__parse_into_addrinfo` reads them.
use mathlib.Core.List.{append_assoc}
use c_ares.Base.{
  ℕ, ◌+◌, ◌≡◌, ◌<◌, refl, ◌∙◌, ap, arith, Bool, Bool-cases, inl, inr, true, false, not, ◌&&◌, ◌||◌,
  List, [], ◌∷◌, ◌++◌, length, length-append, All, ◌==◌, some, if◌then◌else◌,
}
use c_ares.Result.{ok, fail, enodata}
use c_ares.Cmd.{malloc}
use c_ares.Wire.At.{At}
use c_ares.Wire.Copy.{c_string, puts-ok}
use c_ares.Cmd.Put.{put-ok}
use c_ares.Search.{strdup}
use c_ares.Name.Plain.{any-IsAllowed}
use c_ares.Query.Plain.{IsPlainLabel, dotted, c_string-dotted}
use c_ares.Expand.{expand_name_for_response}
use c_ares.Reply.{each_answer}
use c_ares.Reply.Bytes.{
  all_bytes, Reply, reply_message, reply_message-Holds, read_header-Holds, read_question_by,
  for_response-At,
}
use c_ares.Addr.{
  AddrNode, Cname, AddrInfo, Found, nothing_found, ai_answer, save_name, save_found,
  parse_into_addrinfo,
}
use c_ares.Addr.Reply.{no_info}
use c_ares.Addr.Parses.{
  Content, IsContent, v4, v6, alias, other, Answer, answer_bytes, IsAnswer, new_name, nodes_from,
  cnames_from, Grown,
}
use c_ares.Addr.Parses.Step.{Grown-none, ai_answer-Grown}

flag_append :
    {A : Type 0} (b : Bool) (xs ys : List A)
    → ((b || not (length xs == 0)) || not (length ys == 0)) ≡ (b || not (length (xs ++ ys) == 0))
flag_append b xs ys = ground (arith, length-append xs ys)

Grown-then :
    {name name' : List ℕ} {ns ns' : List AddrNode} {cs cs' : List Cname} {st st' st'' : Found}
    → Grown name ns cs st st'
    → Grown name' ns' cs' st' st''
    → Grown name' (ns ++ ns') (cs ++ cs') st st''
Grown-then {ns = ns} {ns'} {cs} {cs'} {st} g h = record {
  hostname = h.hostname;
  all_nodes = h.all_nodes ∙ ap (λ t. t ++ ns') g.all_nodes ∙ append_assoc st.nodes ns ns';
  all_cnames = h.all_cnames ∙ ap (λ t. t ++ cs') g.all_cnames ∙ append_assoc st.cnames cs cs';
  addresses =
      h.addresses
      ∙ ap (λ b. b || not (length ns' == 0)) g.addresses
      ∙ flag_append (st.got_a || st.got_aaaa) ns ns';
  aliases =
      h.aliases ∙ ap (λ b. b || not (length cs' == 0)) g.aliases ∙ flag_append st.got_cname cs cs';
}

-- the name that is looked for behind the answers
abbrev last_name : List ℕ → List Answer → List ℕ
last_name name [] = name
last_name name (a ∷ answers) = last_name (new_name name a.content) answers

-- The name that is looked for holds no NUL.
c_string-new_name :
    (name : List ℕ) (a : Answer)
    → IsAnswer a
    → c_string name ≡ name
    → c_string (new_name name a.content) ≡ new_name name a.content
c_string-new_name name a w h = name_of a.content w.content_good
  where
    name_of : (c : Content) → IsContent c → c_string (new_name name c) ≡ new_name name c
    name_of (v4 bytes) good = h
    name_of (v6 bytes) good = h
    name_of (alias ls) good = c_string-dotted ls good.0
    name_of (other type bytes) good = h

module _ {abuf : List ℕ} (port : ℕ) where
  each_answer-Grown :
      (answers : List Answer) (p : ℕ) (st : Found)
      → All IsAnswer answers
      → c_string st.hostname ≡ st.hostname
      → At abuf p (all_bytes answer_bytes answers)
      → (st' : Found) × (each_answer (length answers) (ai_answer abuf (length abuf) port) p st []
          ≡ ok (st', []))
        × Grown
            (last_name st.hostname answers)
            (nodes_from port st.hostname answers)
            (cnames_from answers)
            st
            st'
  unfolding each_answer
  each_answer-Grown [] p st good text at = (st, refl, Grown-none st)
  each_answer-Grown (a ∷ answers) p st good text at =
      let (q, st1, run1, grown1, behind) =
        ai_answer-Grown port p a (all_bytes answer_bytes answers) st good.0 text at in
      let (st2, run2, grown2) =
        each_answer-Grown answers q st1 good.1
          (rw grown1.hostname (c_string-new_name st.hostname a good.0 text)) behind in
      (st2, rw run1 run2, Grown-then grown1 (rw grown1.hostname at grown2))

strdup-ok : (s : List ℕ) → strdup s [] ≡ ok (s, [])
unfolding strdup malloc
strdup-ok s =
    rw
      (
        puts-ok s (record { room = length s + 1; text = [] }) 1 refl,
        put-ok 0 (record { room = 1; text = s }) 0 (omega arith),
      )
      refl

-- nothing that the caller wants
abbrev pub is_nothing : Bool → List AddrNode → List Cname → Bool
is_nothing cname_only_is_enodata nodes cnames =
    length nodes == 0 && (cname_only_is_enodata || length cnames == 0)

abbrev pub info_of : ℕ → List ℕ → List Answer → AddrInfo
info_of port name answers = record {
  cnames = cnames_from answers;
  nodes = nodes_from port name answers;
  name = some name;
}

kept_list :
    {A : Type 0} (flag : Bool) (xs ys : List A)
    → flag ≡ not (length ys == 0)
    → xs ≡ ys
    → (if flag then xs else []) ≡ ys
kept_list true xs ys e same = same
kept_list false xs [] e same = refl
kept_list false xs (y ∷ ys) e same = absurd (ground arith)

save_found-Grown :
    (only : Bool) {name : List ℕ} (text : c_string name ≡ name) (last : List ℕ)
    (nodes : List AddrNode) (cnames : List Cname) (st : Found)
    → Grown last nodes cnames (nothing_found name) st
    → save_found only name no_info st [] ≡ (
        if is_nothing only nodes cnames
        then fail enodata
        else ok (record { cnames = cnames; nodes = nodes; name = some name }, []))
unfolding save_found save_name
save_found-Grown only {name} text last nodes cnames st g =
    let ns = kept_list (st.got_a || st.got_aaaa) st.nodes nodes g.addresses g.all_nodes in
    let cs = kept_list st.got_cname st.cnames cnames g.aliases g.all_cnames in
    let test : (st.got_a || st.got_aaaa || (st.got_cname && not (st.got_cname && only)))
        ≡ not (is_nothing only nodes cnames) =
      ground (arith, g.addresses, g.aliases) in
    elim (Bool-cases (is_nothing only nodes cnames)) [
      | inl e ↦ rw (test, e) refl
      | inr e ↦ rw (test, e, text, strdup-ok name, ns, cs) refl
    ]

-- With memory, for a reply to one question whose answers are A, AAAA and CNAME records and records
-- of other types, up to 65535 of them, with names whose labels need no escapes and are not
-- compressed, aliases that stand for host names, addresses of the sizes of their families, and
-- lengths and types below 65536: `ares__parse_into_addrinfo`, for an `ai` that is empty, returns
-- the addresses whose owner is the name that is looked for, in their order with their TTLs and the
-- port, and all the aliases. The name that is looked for is that of the question, and behind an
-- alias the one that this stands for. It fails with ARES_ENODATA if it has no address and either
-- no alias or a caller to whom an alias is not enough.
pub parse_into_addrinfo_records :
    (r : Reply) (answers : List Answer) (cname_only_is_enodata : Bool) (port : ℕ)
    → All IsPlainLabel r.labels
    → All IsAnswer answers
    → length answers < 65536
    → let msg = reply_message r (length answers) (all_bytes answer_bytes answers) in
      let name = dotted r.labels in
      parse_into_addrinfo msg (length msg) cname_only_is_enodata port no_info [] ≡ (
        if is_nothing cname_only_is_enodata (nodes_from port name answers) (cnames_from answers)
        then fail enodata
        else ok (info_of port name answers, []))
unfolding parse_into_addrinfo
parse_into_addrinfo_records r answers only port plain good few =
    let msg = reply_message r (length answers) (all_bytes answer_bytes answers) in
    let name = dotted r.labels in
    let text = c_string-dotted r.labels plain in
    let w = reply_message-Holds r (length answers) (all_bytes answer_bytes answers) in
    let question = for_response-At false r.labels _ w.question plain (any-IsAllowed r.labels) in
    let (st, run, grown) =
      each_answer-Grown port answers _ (nothing_found name) good text w.behind in
    rw
      (
        read_header-Holds r (length answers) _ w few,
        read_question_by r (length answers) _ w (expand_name_for_response false) question,
        run,
      )
      (save_found-Grown only text _ (nodes_from port name answers) (cnames_from answers) st grown)
