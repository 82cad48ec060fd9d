-- ===== src/Llist/Insert.antt =====
-- A node that is put at an end of the list.
use c_ares.Base.{
  ℕ, ◌+◌, ◌≡◌, ◌≢◌, refl, sym, ◌∙◌, arith, Bool, true, false, List, [], ◌∷◌, ◌++◌, Option, none,
  some, length-concat, ◌==◌,
}
use c_ares.Result.{ok}
use c_ares.Llist.{
  Node, Heap, LinkedList, or_else, write, set_prev, set_next, InsertType, insert_head, insert_tail,
  link_node, insert_at,
}
use c_ares.Llist.Seg.{
  Item, last, Frame, IsList, write-other, write-same, Seg-agrees, agrees-write, Seg-append,
  set_next-last, set_prev-first, append-Distinct, free-Apart, last-append,
}

-- `ares__llist_insert_first` and `ares__llist_insert_last`
abbrev pub end_of : Bool → InsertType
end_of true = insert_head
end_of false = insert_tail

abbrev pub placed : Bool → Item → List Item → List Item
placed true x xs = x ∷ xs
placed false x xs = xs ++ x ∷ []

-- The list has one node more, and the others are untouched.
abbrev pub Placed : Heap → LinkedList → Bool → Item → List Item → Type 0
Placed h l front x xs =
    (h' : Heap) × (l' : LinkedList) × (insert_at h l (end_of front) (some x.0) x.1
      ≡ ok (some x.0, h', l'))
    × IsList h' l' (placed front x xs)
    × Frame h h' (x ∷ xs)

-- a list that is not empty has a last node
or_else-last :
    (p : ℕ) (xs : List Item) (other : Option ℕ)
    → or_else (last (some p) xs) other ≡ last (some p) xs
or_else-last p [] other = refl
or_else-last p (x ∷ xs) other = or_else-last x.0 xs other

module _ (h : Heap) (l : LinkedList) (node val : ℕ) (valid : val ≢ 0) (free : h node ≡ none) where
  insert_head-Placed : (xs : List Item) → IsList h l xs → Placed h l true (node, val) xs
  unfolding insert_at link_node set_prev
  insert_head-Placed [] w =
      let nz : (val == 0) ≡ false = ground (arith, valid) in
      let n : Node = record { content = val; prev = none; next = none } in
      (
        write h node (some n),
        record { head = some node; tail = some node; cnt = l.cnt + 1 },
        rw (nz, w.head, w.tail) refl,
        record {
          nodes = (write-same h node (some n), tt);
          distinct = (tt, tt);
          head = refl;
          tail = refl;
          count = omega (arith, w.count);
        },
        λ q a. write-other h node (some n) q (λ e. a.0 (sym e)),
      )
  insert_head-Placed (x ∷ xs) w =
      let nz : (val == 0) ≡ false = ground (arith, valid) in
      let n : Node = record { content = val; prev = none; next = some x.0 } in
      let apart = free-Apart h none none node (x ∷ xs) free w.nodes in
      let h0 : Heap = write h node (some n) in
      let (h', run, seg, frame) = set_prev-first h0 none none (some node) x xs w.distinct (
        Seg-agrees h h0 none none (x ∷ xs) (agrees-write h node (some n) (x ∷ xs) apart) w.nodes) in
      (
        h',
        record { head = some node; tail = or_else l.tail (some node); cnt = l.cnt + 1 },
        rw (nz, w.head, run) refl,
        record {
          nodes = (frame node apart ∙ write-same h node (some n), seg);
          distinct = (apart, w.distinct);
          head = refl;
          tail = rw w.tail (or_else-last x.0 xs (some node));
          count = omega (arith, w.count);
        },
        λ q a. frame q a.1 ∙ write-other h node (some n) q (λ e. a.0 (sym e)),
      )

  insert_tail-Placed : (xs : List Item) → IsList h l xs → Placed h l false (node, val) xs
  unfolding insert_at link_node set_next
  insert_tail-Placed [] w =
      let nz : (val == 0) ≡ false = ground (arith, valid) in
      let n : Node = record { content = val; prev = none; next = none } in
      (
        write h node (some n),
        record { head = some node; tail = some node; cnt = l.cnt + 1 },
        rw (nz, w.tail, w.head) refl,
        record {
          nodes = (write-same h node (some n), tt);
          distinct = (tt, tt);
          head = refl;
          tail = refl;
          count = omega (arith, w.count);
        },
        λ q a. write-other h node (some n) q (λ e. a.0 (sym e)),
      )
  insert_tail-Placed (x ∷ xs) w =
      let nz : (val == 0) ≡ false = ground (arith, valid) in
      let n : Node = record { content = val; prev = last none (x ∷ xs); next = none } in
      let apart = free-Apart h none none node (x ∷ xs) free w.nodes in
      let h0 : Heap = write h node (some n) in
      let (h', run, seg, frame) = set_next-last h0 none none (some node) x xs w.distinct (
        Seg-agrees h h0 none none (x ∷ xs) (agrees-write h node (some n) (x ∷ xs) apart) w.nodes) in
      (
        h',
        record { head = some x.0; tail = some node; cnt = l.cnt + 1 },
        rw (nz, w.tail, run, w.head) refl,
        record {
          nodes =
              Seg-append h' none none (x ∷ xs) ((node, val) ∷ []) seg
                (frame node apart ∙ write-same h node (some n), tt);
          distinct = append-Distinct (x ∷ xs) ((node, val) ∷ []) w.distinct (tt, tt) (apart, tt);
          head = refl;
          tail = sym (last-append none (x ∷ xs) ((node, val) ∷ []));
          count = omega (arith, w.count, length-concat (x ∷ xs) (node, val));
        },
        λ q a. frame q a.1 ∙ write-other h node (some n) q (λ e. a.0 (sym e)),
      )

-- For a well-formed list, a value that is not NULL and a new address: inserting at the head or at
-- the tail returns the new node, and leaves the well-formed list with this node at that end.
-- Nothing outside the list and the node is touched.
pub insert_at-Placed :
    (h : Heap) (l : LinkedList) (front : Bool) (node val : ℕ) (xs : List Item)
    → val ≢ 0
    → h node ≡ none
    → IsList h l xs
    → Placed h l front (node, val) xs
insert_at-Placed h l true node val xs valid free w = insert_head-Placed h l node val valid free xs w
insert_at-Placed h l false node val xs valid free w =
    insert_tail-Placed h l node val valid free xs w
