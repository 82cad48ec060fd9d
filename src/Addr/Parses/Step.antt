-- ===== src/Addr/Parses/Step.antt =====
-- One answer of a well-formed reply, as `ares__parse_into_addrinfo` reads it.
use mathlib.Core.List.{append-nil}
use c_ares.Base.{
  All, ℕ, ◌+◌, ◌≤◌, ◌≡◌, refl, sym, ◌∙◌, arith, Bool-cases, inl, inr, true, false, ◌||◌, List, [],
  ◌∷◌, ◌++◌, length, length-append, leb, ◌==◌, some,
}
use c_ares.Result.{ok}
use c_ares.Cmd.{malloc_node}
use c_ares.Wire.At.{At, At-append, At-length, memcpy-At}
use c_ares.Wire.Copy.{memcpy}
use c_ares.Name.Plain.{any-IsAllowed}
use c_ares.Query.Plain.{dotted}
use c_ares.Wire.Copy.{c_string}
use c_ares.Query.Plain.{IsPlainLabel, c_string-dotted}
use c_ares.Text.{same_text}
use c_ares.Expand.{expand_name_for_response}
use c_ares.Reply.{Rr}
use c_ares.Reply.Bytes.{
  Heading, ttl_value, data_start, At-move, At-name, for_response-At, data-At, read_rr_by,
  read_ttl-At,
}
use c_ares.Addr.{
  Family, af_inet, af_inet6, addr_size, AddrNode, Found, append_ai_node, addr_record, alias_record,
  ai_answer,
}
use c_ares.Addr.Parses.{
  Content, v4, v6, alias, other, Answer, owner_of, type_of, data_length, data_bytes, answer_bytes,
  IsContent, IsAnswer, new_nodes, new_cnames, new_name, nodes_at, cnames_at, Grown,
}

-- what an answer is read as
abbrev rr_of : ℕ → Answer → Rr
rr_of aptr a = record {
  rr_name = owner_of a;
  rr_type = type_of a.content;
  rr_class = 1;
  rr_len = data_length a.content;
  aptr = aptr;
}

pub Grown-none : (st : Found) → Grown st.hostname [] [] st st
Grown-none st = record {
  hostname = refl;
  all_nodes = sym (append-nil st.nodes);
  all_cnames = sym (append-nil st.cnames);
  addresses = ground arith;
  aliases = ground arith;
}

Grown-node :
    {n : AddrNode} (st st' : Found)
    → st'.hostname ≡ st.hostname
    → st'.nodes ≡ st.nodes ++ n ∷ []
    → st'.cnames ≡ st.cnames
    → st'.got_cname ≡ st.got_cname
    → (st'.got_a || st'.got_aaaa) ≡ true
    → Grown st.hostname (n ∷ []) [] st st'
Grown-node {n} st st' same nodes cnames flag found = record {
  hostname = same;
  all_nodes = nodes;
  all_cnames = cnames ∙ sym (append-nil st.cnames);
  addresses = ground (arith, found);
  aliases = ground (arith, flag);
}

module _ {abuf : List ℕ} (port p : ℕ) where
  append_ai_node-At :
      (family : Family) (ttl : ℕ) (bytes rest : List ℕ) (nodes : List AddrNode)
      → At abuf p (bytes ++ rest)
      → length bytes ≡ addr_size family
      → append_ai_node family port ttl abuf p nodes []
        ≡ ok (
          nodes
              ++ record { ai_family = family; ai_port = port; ai_ttl = ttl; ai_addr = bytes } ∷ [],
          [],
        )
  unfolding append_ai_node malloc_node
  append_ai_node-At family ttl bytes rest nodes at size =
      let copied : memcpy abuf p (addr_size family) (record { room = addr_size family; text = [] })
          ≡ ok (record { room = 0; text = bytes }) =
        rw (← size)
          (memcpy-At bytes p rest (record { room = length bytes; text = [] }) 0 at (omega arith)) in
      rw copied refl

  -- The data of a record, after the heading.
  content-Grown :
      (h : Heading) (c : Content) (rest : List ℕ) (st : Found)
      → All IsPlainLabel h.owner
      → c_string st.hostname ≡ st.hostname
      → IsContent c
      → At abuf p (data_bytes c rest)
      → let rr : Rr = rr_of p (record { heading = h; content = c }) in
        (st1 : Found) × (st2 : Found) × (addr_record abuf (length abuf) port (ttl_value h) rr st []
          ≡ ok (st1, []))
        × (alias_record abuf (length abuf) (ttl_value h) rr st1 [] ≡ ok (st2, []))
        × Grown
            (new_name st.hostname c)
            (new_nodes port (ttl_value h) (same_text (dotted h.owner) st.hostname) c)
            (new_cnames (ttl_value h) (dotted h.owner) c)
            st
            st2
        × At abuf (p + data_length c) rest
  unfolding addr_record alias_record malloc_node
  content-Grown h (v4 bytes) rest st plain text good at =
      elim (Bool-cases (same_text (dotted h.owner) st.hostname)) [
        | inl same ↦
            let next : Found = record st {
              nodes =
                  st.nodes
                  ++ record {
                    ai_family = af_inet;
                    ai_port = port;
                    ai_ttl = ttl_value h;
                    ai_addr = bytes;
                  }
                    ∷ [];
              got_a = true;
            } in
            let room : leb (p + 4) (length abuf) ≡ true =
              ground (arith, At-length at, length-append bytes rest, good) in
            (
              next,
              next,
              rw
                  (
                    c_string-dotted h.owner plain,
                    text,
                    same,
                    room,
                    append_ai_node-At af_inet (ttl_value h) bytes rest st.nodes at good,
                  )
                  refl,
              refl,
              rw same (Grown-node st next refl refl refl refl (ground arith)),
              At-move (omega (arith, good)) (At-append bytes at),
            )
        | inr differs ↦ (
          st,
          st,
          rw (c_string-dotted h.owner plain, text, differs) refl,
          refl,
          rw differs (Grown-none st),
          At-move (omega (arith, good)) (At-append bytes at),
        )
      ]
  content-Grown h (v6 bytes) rest st plain text good at =
      elim (Bool-cases (same_text (dotted h.owner) st.hostname)) [
        | inl same ↦
            let next : Found = record st {
              nodes =
                  st.nodes
                  ++ record {
                    ai_family = af_inet6;
                    ai_port = port;
                    ai_ttl = ttl_value h;
                    ai_addr = bytes;
                  }
                    ∷ [];
              got_aaaa = true;
            } in
            let room : leb (p + 16) (length abuf) ≡ true =
              ground (arith, At-length at, length-append bytes rest, good) in
            (
              next,
              next,
              rw
                  (
                    c_string-dotted h.owner plain,
                    text,
                    same,
                    room,
                    append_ai_node-At af_inet6 (ttl_value h) bytes rest st.nodes at good,
                  )
                  refl,
              refl,
              rw same (Grown-node st next refl refl refl refl (ground arith)),
              At-move (omega (arith, good)) (At-append bytes at),
            )
        | inr differs ↦ (
          st,
          st,
          rw (c_string-dotted h.owner plain, text, differs) refl,
          refl,
          rw differs (Grown-none st),
          At-move (omega (arith, good)) (At-append bytes at),
        )
      ]
  content-Grown h (alias ls) rest st plain text good at =
      let next : Found = record st {
        hostname = dotted ls;
        cnames =
            st.cnames
            ++ record { ttl = ttl_value h; alias = some (dotted h.owner); name = some (dotted ls) }
              ∷ [];
        got_cname = true;
      } in
      (
        st,
        next,
        refl,
        rw (for_response-At true ls rest at good.0 good.1) refl,
        record {
          hostname = refl;
          all_nodes = sym (append-nil st.nodes);
          all_cnames = refl;
          addresses = ground arith;
          aliases = ground arith;
        },
        At-move (omega arith) (At-name ls at),
      )
  content-Grown h (other type bytes) rest st plain text good at =
      let a : (type == 1) ≡ false = ground (arith, good.0) in
      let aaaa : (type == 28) ≡ false = ground (arith, good.1) in
      let cname : (type == 5) ≡ false = ground (arith, good.2) in
      (st, st, rw (a, aaaa) refl, rw cname refl, Grown-none st, At-append bytes at)

module _ {abuf : List ℕ} (port : ℕ) where
  -- One answer adds what it stands for, and the next one is behind it.
  pub ai_answer-Grown :
      (p : ℕ) (a : Answer) (rest : List ℕ) (st : Found)
      → IsAnswer a
      → c_string st.hostname ≡ st.hostname
      → At abuf p (answer_bytes a rest)
      → (q : ℕ) × (st' : Found) × (ai_answer abuf (length abuf) port p st [] ≡ ok ((q, st'), []))
        × Grown (new_name st.hostname a.content) (nodes_at port st.hostname a) (cnames_at a) st st'
        × At abuf q rest
  unfolding ai_answer
  ai_answer-Grown p a rest st good text at =
      let h = a.heading in
      let len = data_length a.content in
      let content = data_bytes a.content rest in
      let start = data_start p h in
      let inside = data-At h (type_of a.content) len content at in
      let (st1, st2, run1, run2, grown, behind) =
        content-Grown port start h a.content rest st good.owner_plain text good.content_good
          inside in
      let fits : start + len ≤ length abuf = omega (arith, At-length behind) in
      let room : leb (start + len) (length abuf) ≡ true = ground (arith, fits) in
      let owner = for_response-At false h.owner _ at good.owner_plain (any-IsAllowed h.owner) in
      (
        start + len,
        st2,
        rw
            (
              read_rr_by h (type_of a.content) len content at (expand_name_for_response false) owner
                  good.type_small good.data_short (omega (arith, fits, At-length inside)),
              read_ttl-At h (type_of a.content) len content at,
              run1,
              run2,
              room,
            )
            refl,
        grown,
        behind,
      )
