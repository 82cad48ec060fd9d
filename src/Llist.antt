-- ===== src/Llist.antt =====
-- src/lib/ares__llist.c: a doubly linked list of nodes on a heap. The functions get the list that the
-- node's `parent` points to. What the allocator answers is an argument; 0 is the NULL of a value.
pub mod Seg
pub mod Insert
pub mod Claim
use c_ares.Base.{
  ℕ, zero, suc, ◌+◌, ◌-◌, Bool, true, false, List, [], ◌∷◌, ◌++◌, Option, none, some, ◌==◌,
  if◌then◌else◌,
}
use c_ares.Result.{Result, ok, fault, stuck, ◌>>=◌}

pub record Node : Type 0 where
  pub content : ℕ
  pub prev : Option ℕ
  pub next : Option ℕ

-- the node at each address
abbrev pub Heap : Type 0
Heap = ℕ → Option Node

pub record LinkedList : Type 0 where
  pub head : Option ℕ
  pub tail : Option ℕ
  pub cnt : ℕ

abbrev pub write : Heap → ℕ → Option Node → Heap
write h p n q = if q == p then n else h q

abbrev pub node_in : Option Node → Result Node
node_in none = fault
node_in (some n) = ok n

abbrev pub node_at : Heap → ℕ → Result Node
node_at h p = node_in (h p)

-- `p->prev = v` and `p->next = v`, if `p` is not NULL
unfoldable pub set_prev : Heap → Option ℕ → Option ℕ → Result Heap
set_prev h none v = ok h
set_prev h (some p) v = do n ← node_at h p; ok (write h p (some (record n { prev = v })))

unfoldable pub set_next : Heap → Option ℕ → Option ℕ → Result Heap
set_next h none v = ok h
set_next h (some p) v = do n ← node_at h p; ok (write h p (some (record n { next = v })))

abbrev pub is_at : ℕ → Option ℕ → Bool
is_at p none = false
is_at p (some q) = p == q

abbrev pub or_else : Option ℕ → Option ℕ → Option ℕ
or_else none q = q
or_else (some p) q = some p

-- where a node is put
pub data InsertType : Type 0 where
  insert_head insert_tail : InsertType
  insert_at_node : ℕ → InsertType

-- the pointers of the new node and of its neighbours
unfoldable pub link_node : Heap → LinkedList → InsertType → ℕ → ℕ → Result (Heap × LinkedList)
link_node h l insert_head node val = do
  h' ←
      set_prev (write h node (some (record { content = val; prev = none; next = l.head }))) l.head
        (some node)
  ok (h', record l { head = some node })
link_node h l insert_tail node val = do
  h' ←
      set_next (write h node (some (record { content = val; prev = l.tail; next = none }))) l.tail
        (some node)
  ok (h', record l { tail = some node })
link_node h l (insert_at_node at) node val = do
  n ← node_at h at
  h' ←
      set_prev (write h node (some (record { content = val; prev = n.prev; next = some at })))
        (some at) (some node)
  ok (h', l)

-- A node before the first one is put at the head.
abbrev pub insert_type : LinkedList → InsertType → InsertType
insert_type l (insert_at_node at) = if is_at at l.head then insert_head else insert_at_node at
insert_type l type = type

unfoldable pub insert_at :
    Heap → LinkedList → InsertType → Option ℕ → ℕ → Result (Option ℕ × Heap × LinkedList)
insert_at h l type none val = ok (none, h, l)
insert_at h l type (some node) val = if val == 0 then ok (none, h, l) else (do
  (h', l') ← link_node h l (insert_type l type) node val
  ok (
    some node,
    h',
    record {
      head = or_else l'.head (some node);
      tail = or_else l'.tail (some node);
      cnt = l'.cnt + 1;
    },
  ))

-- `ares__llist_node_claim`: the node's value, the heap without it, and the list
unfoldable pub node_claim : Heap → LinkedList → ℕ → Result (ℕ × Heap × LinkedList)
node_claim h l node = do
  n ← node_at h node
  h1 ← set_next h n.prev n.next
  n1 ← node_at h1 node
  h2 ← set_prev h1 n1.next n1.prev
  n2 ← node_at h2 node
  ok (
    n.content,
    write h2 node none,
    record {
      head = if is_at node l.head then n2.next else l.head;
      tail = if is_at node l.tail then n2.prev else l.tail;
      cnt = l.cnt - 1;
    },
  )

-- the values that the destructor gets of a node: none for NULL, or if the list has no destructor
abbrev pub destructed : Bool → ℕ → List ℕ
destructed false val = []
destructed true val = if val == 0 then [] else val ∷ []

-- `ares__llist_node_destroy`, with whether the list has a destructor
unfoldable pub node_destroy :
    Bool → Heap → LinkedList → Option ℕ → Result (List ℕ × Heap × LinkedList)
node_destroy destruct h l none = ok ([], h, l)
node_destroy destruct h l (some node) = do
  (val, h', l') ← node_claim h l node
  ok (destructed destruct val, h', l')

-- the first node, destroyed
abbrev pub destroy_first :
    Bool → Heap → LinkedList → Option ℕ → Result (Option (List ℕ × Heap × LinkedList))
destroy_first destruct h l none = ok none
destroy_first destruct h l (some node) = do r ← node_destroy destruct h l (some node); ok (some r)

-- `ares__llist_destroy`: the values that the destructor gets, and the heap
unfoldable pub list_destroy : Bool → ℕ → Heap → LinkedList → Result (List ℕ × Heap)
list_destroy destruct zero h l = stuck
list_destroy destruct (suc fuel) h l = do
  destroyed ← destroy_first destruct h l l.head
  elim destroyed [
    | none ↦ ok ([], h)
    | some (vals, h', l') ↦ (do
      (rest, h'') ← list_destroy destruct fuel h' l'
      ok (vals ++ rest, h''))
  ]
