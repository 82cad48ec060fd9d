-- ===== src/Reply/Ptr/Total.antt =====
-- The array of aliases is never overrun, and `parse_ptr_reply` is memory safe.
use c_ares.Base.{
  ℕ, ◌+◌, ◌*◌, ◌≤◌, ◌<◌, ◌≡◌, ◌≢◌, refl, arith, true, false, ◌&&◌, List, [], ◌∷◌, ◌++◌, Option,
  none, some, length, leb, ◌==◌, length-concat,
}
use c_ares.Result.{ebadresp}
use c_ares.Cmd.Safe.{
  Safe, Safe-pure, Safe-raise, Safe-lift, Safe-bind, Safe-mono, Safe-if, Safe-guard, Safe-malloc,
  Safe-malloc_node, Safe-index,
}
use c_ares.Wire.Copy.{memcpy-Ensures, c_string}
use c_ares.Text.{same_text}
use c_ares.Expand.{expand_name_for_response}
use c_ares.Reply.{c_in, Rr}
use c_ares.Reply.Host.{copy_string-Safe}
use c_ares.Reply.Ptr.{
  t_ptr, t_cname, PtrState, grow_aliases, ptr_record, cname_record, ptr_answer, copy_addr,
  ptr_hostent, parse_ptr_reply,
}
use c_ares.Reply.Total.{
  IsHostError, for_response-Expands, RrInside, read_header-Safe, read_question-Safe, read_rr-Safe,
  each_answer-Safe,
}

-- There is a free element, there is a host name exactly if there is an alias, and each alias took
-- eleven bytes of the message at least.
abbrev Named : Option (List ℕ) → List (List ℕ) → Type 0
Named none aliases = aliases ≡ []
Named (some h) aliases = aliases ≢ []

pub record IsRoomy (p : ℕ) (st : PtrState) : Type 0 where
  pub free : length st.aliases < st.alias_alloc
  pub taken : 11 * length st.aliases + 17 ≤ p
  pub named : Named st.hostname st.aliases

concat-ne-nil : (xs : List (List ℕ)) (x : List ℕ) → xs ++ x ∷ [] ≢ []
concat-ne-nil [] x e = cc
concat-ne-nil (y ∷ ys) x e = cc

module _ (abuf : List ℕ) (alen : ℕ) (inside : alen ≤ length abuf) where
  grow_aliases-IsRoomy :
      (p : ℕ) (st : PtrState)
      → length st.aliases ≤ st.alias_alloc
      → 0 < length st.aliases
      → 11 * length st.aliases + 17 ≤ p
      → Named st.hostname st.aliases
      → Safe IsHostError (IsRoomy p) (grow_aliases st)
  unfolding grow_aliases
  grow_aliases-IsRoomy p st le pos t n =
      Safe-if (leb st.alias_alloc (length st.aliases))
        (λ full.
          Safe-bind (Safe-malloc (st.alias_alloc * 2 * 8) tt)
            λ _ _. Safe-pure (record { free = omega arith; taken = t; named = n }))
        (λ room. Safe-pure (record { free = ground arith; taken = t; named = n }))

  ptr_record-IsRoomy :
      (p : ℕ) (rr : Rr) (st : PtrState)
      → RrInside alen p rr
      → IsRoomy p st
      → Safe IsHostError (IsRoomy (rr.aptr + rr.rr_len)) (ptr_record abuf alen rr st)
  unfolding ptr_record
  ptr_record-IsRoomy p rr st w i =
      Safe-bind (for_response-Expands true abuf alen inside rr.aptr) λ x _.
        Safe-bind (Safe-index (length st.aliases) st.alias_alloc i.free) λ _ _.
          Safe-bind (copy_string-Safe x.0 tt) λ alias _.
            let size = length-concat st.aliases alias in
            grow_aliases-IsRoomy (rr.aptr + rr.rr_len)
              (record st { hostname = some x.0; aliases = st.aliases ++ alias ∷ [] })
              (omega (arith, size, i.free)) (omega (arith, size)) (omega (arith, size, i.taken))
              (concat-ne-nil st.aliases alias)

  weaken : (p q : ℕ) (st : PtrState) → p ≤ q → IsRoomy p st → IsRoomy q st
  weaken p q st le i = record { free = i.free; taken = omega (arith, i.taken); named = i.named }

  -- The invariant of the loop.
  ptr_answer-IsRoomy :
      (p : ℕ) (st : PtrState)
      → (p ≤ alen) × IsRoomy p st
      → Safe IsHostError (λ x. (x.0 ≤ alen) × IsRoomy x.0 x.1) (ptr_answer abuf alen p st)
  unfolding ptr_answer cname_record
  ptr_answer-IsRoomy p st i =
      Safe-bind
        (read_rr-Safe abuf alen inside tt (expand_name_for_response false) p
          (for_response-Expands false abuf alen inside))
        λ rr w.
          Safe-bind
            (Safe-if
              (rr.rr_class == c_in
                && rr.rr_type == t_ptr
                && same_text (c_string rr.rr_name) (c_string st.ptrname))
              (λ _. ptr_record-IsRoomy p rr st w i.1)
              (λ _. Safe-pure (weaken p (rr.aptr + rr.rr_len) st (omega arith) i.1)))
            λ st1 u.
              Safe-bind
                (Safe-if (rr.rr_class == c_in && rr.rr_type == t_cname)
                  (λ _.
                    Safe-bind (for_response-Expands true abuf alen inside rr.aptr)
                      λ x _. Safe-pure (record { free = u.free; taken = u.taken; named = u.named }))
                  (λ _. Safe-pure u))
                λ st2 v.
                  Safe-guard (leb (rr.aptr + rr.rr_len) alen) ebadresp tt
                    λ _. Safe-pure (omega arith, v)

copy_addr-Safe :
    (addr : Option (List ℕ)) (addrlen : ℕ)
    → ((bytes : List ℕ) → addr ≡ some bytes → addrlen ≤ length bytes)
    → Safe IsHostError (λ _. Unit {0}) (copy_addr addr addrlen)
unfolding copy_addr
copy_addr-Safe none addrlen h = Safe-pure tt
copy_addr-Safe (some bytes) addrlen h =
    Safe-if (addrlen == 0) (λ _. Safe-pure tt)
      λ _. Safe-bind (Safe-malloc addrlen tt) λ b fresh.
        Safe-bind
          (Safe-lift
            (memcpy-Ensures bytes 0 addrlen b 0 (omega (arith, h bytes refl)) (omega arith)))
          λ q w. Safe-pure tt

ptr_hostent-Safe :
    (addr : Option (List ℕ)) (addrlen family : ℕ) (aliases : List (List ℕ))
    (hostname : Option (List ℕ))
    → ((bytes : List ℕ) → addr ≡ some bytes → addrlen ≤ length bytes)
    → Named hostname aliases
    → Safe IsHostError
        (λ host. (host.h_aliases ≡ aliases) × (aliases ≢ []))
        (ptr_hostent addr addrlen family aliases hostname)
unfolding ptr_hostent
ptr_hostent-Safe addr addrlen family aliases none h n = Safe-raise tt
ptr_hostent-Safe addr addrlen family aliases (some name) h n =
    Safe-bind (Safe-malloc_node tt) λ _ _. Safe-bind (Safe-malloc_node tt) λ _ _.
      Safe-bind (copy_addr-Safe addr addrlen h)
        λ addrs _. Safe-bind (Safe-malloc ((length aliases + 1) * 8) tt) λ _ _. Safe-pure (refl, n)

-- For an `alen` up to the size of the message's block, whatever the bytes of the message and the
-- answers of the allocator, `parse_ptr_reply` ends with no access outside the message, the
-- address, its blocks or the growing array of aliases, if an address that is given has `addrlen`
-- bytes at least. It fails with ARES_ENODATA, ARES_EBADRESP or ARES_ENOMEM, or returns a host with
-- at least one alias, and the message has 17 bytes and eleven for each alias at least.
pub parse_ptr_reply-Safe :
    (abuf : List ℕ) (alen : ℕ) (addr : Option (List ℕ)) (addrlen family : ℕ)
    → alen ≤ length abuf
    → ((bytes : List ℕ) → addr ≡ some bytes → addrlen ≤ length bytes)
    → Safe IsHostError
        (λ host. (host.h_aliases ≢ []) × (11 * length host.h_aliases + 17 ≤ alen))
        (parse_ptr_reply abuf alen addr addrlen family)
unfolding parse_ptr_reply
parse_ptr_reply-Safe abuf alen addr addrlen family inside h =
    Safe-bind (read_header-Safe abuf alen inside tt) λ ancount _.
      Safe-bind
        (read_question-Safe abuf alen inside tt (expand_name_for_response false)
          (for_response-Expands false abuf alen inside))
        λ question q. Safe-bind (Safe-malloc (8 * 8) tt) λ _ _.
          Safe-bind
            (each_answer-Safe (λ p st. (p ≤ alen) × IsRoomy p st) ancount _ question.1 _
              (ptr_answer-IsRoomy abuf alen inside)
              (q.1, record { free = omega arith; taken = q.0; named = refl }))
            λ st w.
              Safe-mono (ptr_hostent-Safe addr addrlen family st.aliases st.hostname h w.1.1.named)
                λ host v. rw v.0 (v.1, omega (arith, w.1.1.taken, w.1.0))
