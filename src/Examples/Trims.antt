-- ===== src/Examples/Trims.antt =====
-- A small trimmed type: five positions, of which 0 and 3 are kept, 1 is a constant, 2 a copy of 3, and
-- 4 always 0.
use pyg_knowledge_graph_buil.Base.Number.{nat_number}
use pyg_knowledge_graph_buil.Base.{ℕ, [], ◌∷◌, refl, List, ◌≡◌, arith, ◌↔◌, true, false}
use pyg_knowledge_graph_buil.Trim.Valid.{places, places-trim_spec}
use pyg_knowledge_graph_buil.Trim.{trim_spec, make_spec, problems, width, TrimSpec}
use pyg_knowledge_graph_buil.Trim.Nonzero.{any_nonzero_from}
use pyg_knowledge_graph_buil.Trim.Views.{FoundByKey, Nonzero}
use pyg_knowledge_graph_buil.Trim.Seen.{any_nonzero_from-Nonzero}
use pyg_knowledge_graph_buil.Trim.Rebuild.{rebuild}
use pyg_knowledge_graph_buil.Trim.Scatter.{
  scatter_chunk, Tensor, Entry, scatter_sparse_entries, copied, to_columns, strays, broken_copies,
  counter,
}
use pyg_knowledge_graph_buil.Trim.Check.{violations, add_all, Chunk, new_check}
use pyg_knowledge_graph_buil.Trim.Cells.{full}
use pyg_knowledge_graph_buil.Base.Dict.{sort_items, insert_item, range, lookup}
use pyg_knowledge_graph_buil.Base.Result.{ok}
use pyg_knowledge_graph_buil.Trim.Sound.{rebuild-scatter_chunk}
use pyg_knowledge_graph_buil.Base.Int.{pos, negsuc}
use pyg_knowledge_graph_buil.Trim.Clean.{
  total_strays, AllHeld, total_held, total_rows, total_copies, violations-add_all,
}

abbrev kept : List ℕ
kept = 0 ∷ 3 ∷ []

abbrev constant : List (ℕ × ℕ)
constant = (1, 7) ∷ []

abbrev copy_of : List (ℕ × ℕ)
copy_of = (2, 3) ∷ []

small : TrimSpec ℕ
unfolding make_spec sort_items insert_item range
small = make_spec "small" 5 kept constant copy_of

small_made : trim_spec "small" 5 kept constant copy_of ≡ ok small
unfolding small trim_spec problems
small_made = refl

places-trim_spec_example : places small 2 ≡ 1
places-trim_spec_example = places-trim_spec "small" 5 kept constant copy_of small 2 small_made

-- Node 4 holds 8 at position 0, and 9 at 3 and at its copy 2.
abbrev entries : List (Entry ℕ)
entries =
    record { key = 4; dim = pos 0; value = 8 }
    ∷ record { key = 4; dim = pos 3; value = 9 }
    ∷ record { key = 4; dim = pos 2; value = 9 }
    ∷ record { key = 4; dim = negsuc 0; value = 1 }
    ∷ []

abbrev blank : Tensor ℕ
blank = λ _ _. 0

clean :
    ((scatter_chunk small entries blank 4 6).1 ≡ [])
    × ((scatter_chunk small entries blank 4 6).2 ≡ [])
unfolding small scatter_chunk scatter_sparse_entries copied to_columns strays broken_copies counter
    width
clean = (refl, refl)

small_dim : small.vector_dim ≡ 5
unfolding small
small_dim = refl

rebuild-scatter_chunk_example :
    rebuild small ((scatter_chunk small entries blank 4 6).0 4) 2 ≡ full small entries 4 2
rebuild-scatter_chunk_example =
    rebuild-scatter_chunk "small" 5 kept constant copy_of small entries blank 4 6 0 2 small_made
      clean.0 clean.1 (omega arith) (λ c. refl) (omega arith) (rw small_dim (omega arith))
      (unfold small lookup sort_items in refl)

chunks : List Chunk
chunks =
    record { rows = 2; held = (1, 2) ∷ []; zero_broken = []; copy_broken = [] }
    ∷ record { rows = 3; held = (1, 2) ∷ []; zero_broken = (4, 1) ∷ []; copy_broken = [] }
    ∷ []

violations-add_all_example : (violations (add_all (new_check small) chunks) ≡ ok []) ↔ (
    (total_strays chunks ≡ 0)
    × AllHeld (λ p. total_held p chunks) (total_rows chunks) small.constant
    × (total_copies chunks ≡ 0))
violations-add_all_example = violations-add_all small chunks

found_constants : FoundByKey small.constant
unfolding small lookup make_spec sort_items insert_item
found_constants = (refl, tt)

found_copies : FoundByKey small.copy_of
unfolding small lookup make_spec sort_items insert_item
found_copies = (refl, tt)

-- Two nodes of the small type: the constant at 1 is not 0, so something is found from 1 on.
any_nonzero_from-Nonzero_example :
    (any_nonzero_from small blank 2 1 ≡ true) ↔ Nonzero small blank 2 1
any_nonzero_from-Nonzero_example =
    any_nonzero_from-Nonzero "small" 5 kept constant copy_of small blank 2 1 small_made
      found_constants found_copies

nothing_from_two : any_nonzero_from small blank 2 2 ≡ false
unfolding any_nonzero_from small
nothing_from_two = refl
