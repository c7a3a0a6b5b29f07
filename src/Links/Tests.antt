-- ===== src/Links/Tests.antt =====
-- The list laws at two rings: 10 holds the entries 1, 2 and 3, and 20 holds the entry 4.
use chao_s_os.Prelude.{◌≡◌, refl, [], ◌∷◌, arith}
use chao_s_os.Links.{
  Links, null, init_list_head, list_add_tail, list_del, list_move_to_tail, list_swap,
}
use chao_s_os.Links.Ring.{Ring}
use chao_s_os.Links.Laws.{Apart, list_del-Ring, list_move_to_tail-Ring}

abbrev blank : Links
blank = record { next = λ _. null; prev = λ _. null }

abbrev two_rings : Links
unfolding init_list_head list_add_tail
two_rings = list_add_tail 4 20 (
    list_add_tail 3 10
      (list_add_tail 2 10 (list_add_tail 1 10 (init_list_head 20 (init_list_head 10 blank)))))

ten-Ring : Ring two_rings 10 (1 ∷ 2 ∷ 3 ∷ [])
unfolding two_rings
ten-Ring = record { chain = omega arith; apart = refl; distinct = ground arith }

twenty-Ring : Ring two_rings 20 (4 ∷ [])
unfolding two_rings
twenty-Ring = record { chain = omega arith; apart = refl; distinct = ground arith }

rings-Apart : Apart (10 ∷ 1 ∷ 2 ∷ 3 ∷ []) (20 ∷ 4 ∷ [])
rings-Apart p i = ground arith

swap_runs : Ring (list_swap 1 3 two_rings) 10 (3 ∷ 2 ∷ 1 ∷ [])
unfolding list_swap two_rings
swap_runs = record { chain = omega arith; apart = refl; distinct = ground arith }

list_del-Ring_example :
    Ring (list_del 2 two_rings) 10 (1 ∷ 3 ∷ [])
    × ((list_del 2 two_rings).next 2 ≡ null)
    × ((list_del 2 two_rings).prev 2 ≡ null)
list_del-Ring_example = list_del-Ring (1 ∷ []) 2 (3 ∷ []) ten-Ring

list_move_to_tail-Ring_example :
    Ring (list_move_to_tail 2 20 two_rings) 10 (1 ∷ 3 ∷ [])
    × Ring (list_move_to_tail 2 20 two_rings) 20 (4 ∷ 2 ∷ [])
list_move_to_tail-Ring_example =
    list_move_to_tail-Ring (1 ∷ []) 2 (3 ∷ []) ten-Ring rings-Apart twenty-Ring
