-- ===== src/Links.antt =====
-- kernel/include/klib/list.h: circular doubly linked lists threaded through the `list_head` of each
-- task, mutex and queue. The `list_head`s of memory are two maps from addresses to addresses; each
-- function is the source's sequence of pointer writes, in the source's order, so that aliased
-- arguments behave as they do in C.
pub mod Ring
pub mod Chains
pub mod Laws
pub mod Rotation
mod Tests
use chao_s_os.Prelude.{ℕ, Bool, ◌==◌, if◌then◌else◌}

abbrev pub Ptr : Type 0
Ptr = ℕ

abbrev pub null : Ptr
null = 0

-- `struct list_head`, for every address at once.
pub record Links : Type 0 where
  pub next : Ptr → Ptr
  pub prev : Ptr → Ptr

abbrev pub update : (Ptr → Ptr) → Ptr → Ptr → Ptr → Ptr
update f p q a = if a == p then q else f a

-- `p->next = q` and `p->prev = q`
abbrev pub set_next : Ptr → Ptr → Links → Links
set_next p q h = record h { next = update h.next p q }

abbrev pub set_prev : Ptr → Ptr → Links → Links
set_prev p q h = record h { prev = update h.prev p q }

-- INIT_LIST_HEAD
unfoldable pub init_list_head : Ptr → Links → Links
init_list_head p h = set_prev p p (set_next p p h)

-- `_list_add`
unfoldable pub list_add_between : Ptr → Ptr → Ptr → Links → Links
list_add_between new left right h =
    set_prev right new (set_next left new (set_prev new left (set_next new right h)))

unfoldable pub list_add : Ptr → Ptr → Links → Links
unfolding list_add_between
list_add new head h = list_add_between new head (h.next head) h

unfoldable pub list_add_tail : Ptr → Ptr → Links → Links
unfolding list_add_between
list_add_tail new head h = list_add_between new (h.prev head) head h

-- `_list_del`
unfoldable pub list_del_between : Ptr → Ptr → Links → Links
list_del_between prev next h = set_prev next prev (set_next prev next h)

unfoldable pub list_del : Ptr → Links → Links
unfolding list_del_between
list_del entry h =
    set_prev entry null (set_next entry null (list_del_between (h.prev entry) (h.next entry) h))

-- `new->next->prev = new` and `new->prev->next = new` read back what was just written.
unfoldable pub list_replace : Ptr → Ptr → Links → Links
list_replace old new h =
    let h₁ = set_next new (h.next old) h in
    let h₂ = set_prev (h₁.next new) new h₁ in
    let h₃ = set_prev new (h₂.prev old) h₂ in set_next (h₃.prev new) new h₃

unfoldable pub list_move_to_head : Ptr → Ptr → Links → Links
unfolding list_del list_add
list_move_to_head node dst h = list_add node dst (list_del node h)

unfoldable pub list_move_to_tail : Ptr → Ptr → Links → Links
unfolding list_del list_add_tail
list_move_to_tail node dst h = list_add_tail node dst (list_del node h)

unfoldable pub list_swap : Ptr → Ptr → Links → Links
unfolding list_del list_replace list_add
list_swap entry1 entry2 h =
    let pos = h.prev entry2 in
    let h₁ = list_replace entry1 entry2 (list_del entry2 h) in
    list_add entry1 (if pos == entry1 then entry2 else pos) h₁

unfoldable pub list_is_first : Ptr → Ptr → Links → Bool
list_is_first entry head h = h.next head == entry

unfoldable pub list_is_last : Ptr → Ptr → Links → Bool
list_is_last entry head h = h.prev head == entry
