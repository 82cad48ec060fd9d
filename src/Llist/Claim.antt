-- ===== src/Llist/Claim.antt =====
-- A node that is taken out of the list.
use c_ares.Base.{
  Bool, Bool-cases, inl, inr, ◌<◌, ℕ, zero, suc, ◌-◌, ◌≡◌, ◌≢◌, refl, sym, ◌∙◌, ap, arith, true,
  false, List, [], ◌∷◌, ◌++◌, Option, none, some, map, length, length-append, All, ◌==◌,
  if◌then◌else◌,
}
use c_ares.Result.{ok}
use c_ares.Llist.{
  Heap, LinkedList, write, is_at, set_prev, set_next, node_claim, destructed, node_destroy,
  destroy_first, list_destroy,
}
use c_ares.Llist.Seg.{
  Item, first, last, Seg, Apart, Distinct, Frame, IsList, write-other, write-same, Seg-agrees,
  agrees-write, Frame-agrees, Seg-append, append-Seg, set_next-last, set_prev-first, Apart-append,
  Distinct-append, append-Distinct, Separate-sym, last-append,
}

-- The pointers of the neighbours are set past the node.
unlink_next :
    (h : Heap) (v : Option ℕ) (nxt : Option ℕ) (xs : List Item)
    → Distinct xs
    → Seg h none nxt xs
    → (h' : Heap) × (set_next h (last none xs) v ≡ ok h') × Seg h' none v xs × Frame h h' xs
unfolding set_next
unlink_next h v nxt [] d seg = (h, refl, tt, λ q a. refl)
unlink_next h v nxt (x ∷ xs) d seg = set_next-last h none nxt v x xs d seg

unlink_prev :
    (h : Heap) (v : Option ℕ) (prv : Option ℕ) (ys : List Item)
    → Distinct ys
    → Seg h prv none ys
    → (h' : Heap) × (set_prev h (first none ys) v ≡ ok h') × Seg h' v none ys × Frame h h' ys
unfolding set_prev
unlink_prev h v prv [] d seg = (h, refl, tt, λ q a. refl)
unlink_prev h v prv (y ∷ ys) d seg = set_prev-first h prv none v y ys d seg

-- the head and the tail of the list without the node
new_head :
    (p v : ℕ) (xs ys : List Item)
    → Apart p xs
    → (if is_at p (first none (xs ++ (p, v) ∷ ys))
        then first none ys
        else first none (xs ++ (p, v) ∷ ys))
      ≡ first none (xs ++ ys)
new_head p v [] ys a = let e : (p == p) ≡ true = ground arith in rw e refl
new_head p v (x ∷ xs) ys a = let e : (p == x.0) ≡ false = ground (arith, a.0) in rw e refl

is_at-last : (p q : ℕ) (ys : List Item) → p ≢ q → Apart p ys → is_at p (last (some q) ys) ≡ false
is_at-last p q [] ne a = ground (arith, ne)
is_at-last p q (y ∷ ys) ne a = is_at-last p y.0 ys (λ e. a.0 (sym e)) a.1

new_tail_from :
    (p v : ℕ) (prv : Option ℕ) (ys : List Item)
    → Apart p ys
    → (if is_at p (last (some p) ys) then prv else last (some p) ys) ≡ last prv ys
new_tail_from p v prv [] a = let e : (p == p) ≡ true = ground arith in rw e refl
new_tail_from p v prv (y ∷ ys) a = rw (is_at-last p y.0 ys (λ e. a.0 (sym e)) a.1) refl

-- For a well-formed list: `ares__llist_node_claim` returns the value of a node of it and leaves
-- the well-formed list of the nodes before it and behind it, in their order, wherever the node
-- stands. The node is gone from the heap, and nothing outside the list is touched.
pub node_claim-IsList :
    (h : Heap) (l : LinkedList) (xs ys : List Item) (p v : ℕ)
    → IsList h l (xs ++ (p, v) ∷ ys)
    → (h' : Heap) × (l' : LinkedList) × (node_claim h l p ≡ ok (v, h', l'))
      × IsList h' l' (xs ++ ys)
      × (h' p ≡ none)
      × Frame h h' (xs ++ (p, v) ∷ ys)
unfolding node_claim
node_claim-IsList h l xs ys p v w =
    let (left, right) = append-Seg h none none xs ((p, v) ∷ ys) w.nodes in
    let (dx, (py, dy), apart) = Distinct-append xs ((p, v) ∷ ys) w.distinct in
    let nxt = first none ys in
    let prv = last none xs in
    let back = Separate-sym xs ys apart.1 in
    let (h1, run1, seg1, frame1) = unlink_next h nxt (some p) xs dx left in
    let p1 = frame1 p apart.0 in
    let right1 =
      Seg-agrees h h1 (some p) none ys (Frame-agrees h h1 xs ys frame1 apart.1) right.1 in
    let (h2, run2, seg2, frame2) = unlink_prev h1 prv (some p) ys dy right1 in
    let p2 = frame2 p py in
    let left2 = Seg-agrees h1 h2 none nxt xs (Frame-agrees h1 h2 ys xs frame2 back) seg1 in
    let h3 : Heap = write h2 p none in
    let tail_is : l.tail ≡ last (some p) ys = w.tail ∙ last-append none xs ((p, v) ∷ ys) in
    (
      h3,
      record { head = first none (xs ++ ys); tail = last prv ys; cnt = l.cnt - 1 },
      rw
          (
            right.0,
            run1,
            p1,
            right.0,
            run2,
            p2,
            p1,
            right.0,
            w.head,
            tail_is,
            new_head p v xs ys apart.0,
            new_tail_from p v prv ys py,
          )
          refl,
      record {
        nodes =
            Seg-append h3 none none xs ys
              (Seg-agrees h2 h3 none nxt xs (agrees-write h2 p none xs apart.0) left2)
              (Seg-agrees h2 h3 prv none ys (agrees-write h2 p none ys py) seg2);
        distinct = append-Distinct xs ys dx dy apart.1;
        head = refl;
        tail = sym (last-append none xs ys);
        count = omega (arith, w.count, length-append xs ((p, v) ∷ ys), length-append xs ys);
      },
      write-same h2 p none,
      λ q a.
          let (ax, ay) = Apart-append q xs ((p, v) ∷ ys) a in
          write-other h2 p none q (λ e. ay.0 (sym e)) ∙ frame2 q ay.1 ∙ frame1 q ax,
    )

-- the values that are not NULL
unfoldable pub values : List ℕ → List ℕ
values [] = []
values (v ∷ vs) = let rest = values vs in if v == 0 then rest else v ∷ rest

-- the values that the destructor is to get: those that are not NULL, in the order of the list
abbrev pub to_destruct : Bool → List Item → List ℕ
to_destruct destruct xs = if destruct then values (map (λ x. x.1) xs) else []

destructed-to_destruct :
    (destruct : Bool) (x : Item) (xs : List Item)
    → destructed destruct x.1 ++ to_destruct destruct xs ≡ to_destruct destruct (x ∷ xs)
unfolding values
destructed-to_destruct true x xs = elim (Bool-cases (x.1 == 0)) [
  | inl e ↦ rw e refl
  | inr e ↦ rw e refl
]
destructed-to_destruct false x xs = refl

-- For a well-formed list and fuel for each node and one more: `ares__llist_destroy` ends, and
-- hands the values that are not NULL to the destructor in the order of the list, or none if there
-- is no destructor. It frees every node, and touches nothing outside the list.
pub list_destroy-ok :
    (destruct : Bool) (xs : List Item) (fuel : ℕ) (h : Heap) (l : LinkedList)
    → IsList h l xs
    → length xs < fuel
    → (h' : Heap) × (list_destroy destruct fuel h l ≡ ok (to_destruct destruct xs, h'))
      × All (λ x. h' x.0 ≡ none) xs
      × Frame h h' xs
unfolding list_destroy node_destroy values
list_destroy-ok destruct xs zero h l w lt = absurd (omega arith)
list_destroy-ok true [] (suc fuel) h l w lt =
    let none_left : destroy_first true h l l.head ≡ ok none = ap (destroy_first true h l) w.head in
    (h, rw none_left refl, tt, λ q a. refl)
list_destroy-ok false [] (suc fuel) h l w lt =
    let none_left : destroy_first false h l l.head ≡ ok none =
      ap (destroy_first false h l) w.head in
    (h, rw none_left refl, tt, λ q a. refl)
list_destroy-ok destruct (x ∷ xs) (suc fuel) h l w lt =
    let (h1, l1, run1, w1, gone, frame1) = node_claim-IsList h l [] xs x.0 x.1 w in
    let destroyed : destroy_first destruct h l l.head
        ≡ ok (some (destructed destruct x.1, h1, l1)) =
      ap (destroy_first destruct h l) w.head ∙ rw run1 refl in
    let (h2, run2, all_gone, frame2) = list_destroy-ok destruct xs fuel h1 l1 w1 (omega arith) in
    (
      h2,
      rw (destroyed, run2, destructed-to_destruct destruct x xs) refl,
      (frame2 x.0 w.distinct.0 ∙ gone, all_gone),
      λ q a. frame2 q a.1 ∙ frame1 q a,
    )
