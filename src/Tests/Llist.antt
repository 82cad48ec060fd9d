-- ===== src/Tests/Llist.antt =====
-- A linked list of two nodes.
use c_ares.Base.{◌≡◌, refl, arith, true, false, [], ◌∷◌, none, some, All, ◌==◌, if◌then◌else◌}
use c_ares.Result.{ok}
use c_ares.Llist.{
  Heap, LinkedList, set_prev, insert_at_node, link_node, insert_at, node_claim, list_destroy,
}
use c_ares.Llist.Seg.{Item, Frame, IsList}
use c_ares.Llist.Insert.{Placed, insert_at-Placed}
use c_ares.Llist.Claim.{values, node_claim-IsList, list_destroy-ok}

abbrev heap : Heap
heap q =
    if q == 1
    then some (record { content = 10; prev = none; next = some 2 })
    else if q == 2
    then some (record { content = 20; prev = some 1; next = none })
    else none

abbrev two_nodes : LinkedList
two_nodes = record { head = some 1; tail = some 2; cnt = 2 }

two_nodes-IsList : IsList heap two_nodes ((1, 10) ∷ (2, 20) ∷ [])
two_nodes-IsList = record {
  nodes = (refl, (refl, tt));
  distinct = (((λ e. omega (arith, e)), tt), (tt, tt));
  head = refl;
  tail = refl;
  count = refl;
}

insert_at-Placed_example : Placed heap two_nodes false (3, 30) ((1, 10) ∷ (2, 20) ∷ [])
insert_at-Placed_example =
    insert_at-Placed heap two_nodes false 3 30 _ (λ e. omega (arith, e)) refl two_nodes-IsList

node_claim-IsList_example :
    (h : Heap) × (l : LinkedList) × (node_claim heap two_nodes 2 ≡ ok (20, h, l))
    × IsList h l ((1, 10) ∷ [])
    × (h 2 ≡ none)
    × Frame heap h ((1, 10) ∷ (2, 20) ∷ [])
node_claim-IsList_example = node_claim-IsList heap two_nodes ((1, 10) ∷ []) [] 2 20 two_nodes-IsList

list_destroy-ok_example :
    (h : Heap) × (list_destroy true 3 heap two_nodes ≡ ok (10 ∷ 20 ∷ [], h))
    × All (λ (x : Item). h x.0 ≡ none) ((1, 10) ∷ (2, 20) ∷ [])
    × Frame heap h ((1, 10) ∷ (2, 20) ∷ [])
unfolding values
list_destroy-ok_example = list_destroy-ok true _ 3 heap two_nodes two_nodes-IsList (omega arith)

-- A node that is put before the second one is not linked from the first one.
insert_before_lost :
    (h : Heap) × (l : LinkedList) × (insert_at heap two_nodes (insert_at_node 2) (some 3) 30
      ≡ ok (some 3, h, l))
    × (h 1 ≡ some (record { content = 10; prev = none; next = some 2 }))
    × (h 2 ≡ some (record { content = 20; prev = some 3; next = none }))
    × (l.cnt ≡ 3)
unfolding insert_at link_node set_prev
insert_before_lost = (_, _, refl, refl, refl, refl)
