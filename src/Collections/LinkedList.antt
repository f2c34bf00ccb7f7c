-- ===== src/Collections/LinkedList.antt =====
-- packages/core/lib/LinkedList.ts and Queue.ts.
pub mod Chain
pub mod Add
pub mod Splice
pub mod Remove
use node_dlc.Prelude.{
  ℕ, zero, suc, ◌+◌, ◌-◌, ◌≡◌, refl, Bool, true, false, not, ◌&&◌, Option, none, some, ltb, ◌==◌,
  if◌then◌else◌, Outcome, ok, err, Error, out_of_range, null_pointer, ◌>>=◌, ◌>>◌, pure, throw,
}
use node_dlc.Collections.Nodes.{
  Ptr, Node, Heap, LinkedList, Method, load, set_next, set_prev, create,
}

-- The three local variables of `remove`.
pub record Cut : Type 0 where
  pub removed : Ptr
  pub before : Ptr
  pub after : Ptr

module _ {T : Type 0} where
  unfoldable pub new_list : LinkedList T
  new_list = record { nodes = λ a. none; fresh = 0; length = 0; head = none; tail = none }

  unfoldable pub set_ends : Ptr → Ptr → Method T (Unit {0})
  set_ends head tail s = ok tt (record s { head = head; tail = tail; length = s.length + 1 })

  -- The branch on the list that was there before the node was made.
  unfoldable pub append_node : Ptr → Ptr → ℕ → Method T ℕ
  append_node none tail node = do set_ends (some node) (some node); pure node
  append_node (some head) tail node = do
    set_prev (some node) tail
    set_next tail (some node)
    set_ends (some head) (some node)
    pure node

  unfoldable pub add : T → Method T ℕ
  add v s = (do node ← create v; append_node s.head s.tail node) s

  -- The walk of `nodeAt`, `count` steps of it left.
  unfoldable pub walk : ℕ → Ptr → Method T Ptr
  walk zero current = pure current
  walk (suc count) current = do n ← load current; walk count n.next

  unfoldable pub node_at : ℕ → Method T Ptr
  node_at index s = if ltb s.length index then err out_of_range s else walk index s.head s

  unfoldable pub value_at : ℕ → Method T (Option T)
  value_at index = do p ← node_at index; value_of p
    where
      value_of : Ptr → Method T (Option T)
      value_of none = pure none
      value_of (some a) = do n ← load (some a); pure (some n.value)

  unfoldable pub cut_first : Bool → Cut → Method T Cut
  cut_first false c s = ok c s
  cut_first true c s =
      (do
        n ← load s.head
        λ t. ok (record c { removed = s.head; after = n.next }) (record t { head = n.next }))
        s

  unfoldable pub cut_last : Bool → Cut → Method T Cut
  cut_last false c s = ok c s
  cut_last true c s =
      (do
        n ← load s.tail
        λ t. ok (record c { removed = s.tail; before = n.prev }) (record t { tail = n.prev }))
        s

  unfoldable pub cut_middle : ℕ → Ptr → Cut → Method T Cut
  cut_middle index (some a) c = pure c
  cut_middle index none c = do
    p ← node_at index
    n ← load p
    pure (record { removed = p; before = n.prev; after = n.next })

  unfoldable pub link_before : Ptr → Ptr → Method T (Unit {0})
  link_before none q = pure tt
  link_before (some a) q = set_next (some a) q

  unfoldable pub link_after : Ptr → Ptr → Method T (Unit {0})
  link_after none q = pure tt
  link_after (some a) q = set_prev (some a) q

  unfoldable pub shorten : Method T (Unit {0})
  shorten s = ok tt (record s { length = s.length - 1 })

  unfoldable pub splice : Cut → Method T T
  splice c = do
    link_before c.before c.after
    link_after c.after c.before
    shorten
    n ← load c.removed
    pure n.value

  -- `index === this.length - 1` fails on an empty list, where the right side is negative.
  unfoldable pub remove : ℕ → Method T T
  remove index s =
      if ltb s.length index
      then err out_of_range s
      else (do
        c ← cut_first (index == 0) (record { removed = none; before = none; after = none })
        d ← cut_last (index + 1 == s.length) c
        e ← cut_middle index d.removed d
        splice e)
          s

  -- The queue: `peak`, `enqueue` and `dequeue`.
  unfoldable pub peak : Method T (Option T)
  peak s = peak_from s.head s
    where
      peak_from : Ptr → Method T (Option T)
      peak_from none = pure none
      peak_from (some a) = do n ← load (some a); pure (some n.value)

  unfoldable pub enqueue : T → Method T (Unit {0})
  enqueue v = do add v; pure tt

  unfoldable pub dequeue : Method T T
  dequeue = remove 0
