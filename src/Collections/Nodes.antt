-- ===== src/Collections/Nodes.antt =====
-- packages/core/lib/LinkedListNode.ts: the nodes, as objects on a heap that pointers lead to.
use node_dlc.Prelude.{
  ℕ, ◌+◌, Option, none, some, ◌==◌, if◌then◌else◌, Outcome, ok, err, null_pointer, ◌>>=◌,
}

abbrev pub Ptr : Type 0
Ptr = Option ℕ

-- `null` is `none`.
pub record Node (T : Type 0) : Type 0 where
  pub value : T
  pub prev : Ptr
  pub next : Ptr

abbrev pub Heap : Type 0 → Type 0
Heap T = ℕ → Option (Node T)

abbrev pub write : {T : Type 0} → Heap T → ℕ → Node T → Heap T
write h a n q = if q == a then some n else h q

-- The list object with the heap of its nodes; `fresh` is the address of the next object.
pub record LinkedList (T : Type 0) : Type 0 where
  pub nodes : Heap T
  pub fresh : ℕ
  pub length : ℕ
  pub head : Ptr
  pub tail : Ptr

abbrev pub Method : Type 0 → Type 0 → Type 0
Method T A = LinkedList T → Outcome (LinkedList T) A

module _ {T : Type 0} where
  -- A property of `null` throws.
  unfoldable pub load : Ptr → Method T (Node T)
  load none s = err null_pointer s
  load (some a) s = elim (s.nodes a) [ none ↦ err null_pointer s | some n ↦ ok n s ]

  unfoldable pub store : ℕ → Node T → Method T (Unit {0})
  store a n s = ok tt (record s { nodes = write s.nodes a n })

  unfoldable pub set_next : Ptr → Ptr → Method T (Unit {0})
  set_next none q s = err null_pointer s
  set_next (some a) q s = (do n ← load (some a); store a (record n { next = q })) s

  unfoldable pub set_prev : Ptr → Ptr → Method T (Unit {0})
  set_prev none q s = err null_pointer s
  set_prev (some a) q s = (do n ← load (some a); store a (record n { prev = q })) s

  -- `new LinkedListNode(value)`.
  unfoldable pub create : T → Method T ℕ
  create v s = ok s.fresh (record s {
    nodes = write s.nodes s.fresh (record { value = v; prev = none; next = none });
    fresh = s.fresh + 1;
  })
