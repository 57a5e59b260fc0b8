-- ===== src/Turtle/Bounded.antt =====
-- spark_jobs/graph/turtle.py: the batches hold every row, in order, and none is too long.
use mathlib.Core.List
use pyg_knowledge_graph_buil.Base.{
  ℕ, suc, [], ◌∷◌, true, false, List, refl, arith, ◌≡◌, ◌<◌, ◌++◌, ap, length, inl, inr, Bool-cases,
  Option-cases, leb, sym, ◌∙◌, map, Option, length-append, subst,
}
use pyg_knowledge_graph_buil.Base.Texts.{Text}
use pyg_knowledge_graph_buil.Turtle.Rows.{Outside, TurtleRow, turtle_rows_or_skip}
use pyg_knowledge_graph_buil.Turtle.Batches.{
  Stream, turtle_batches_to_arrow, take_blobs, take_rows, drain_full, drain_rest, add_columns,
  empty_columns, all_blobs,
}
use pyg_knowledge_graph_buil.Turtle.Groups.{
  as_batch, joined, bound, rows_before, none_fails, Batched, map-append, length-map, joined-append,
  Full, Full-append, bound_pos, reaches, stays_below, append_row-as_batch,
}

-- Between two rows: the groups that were yielded, and the rows in the columns.
abbrev Holds : ℕ → List TurtleRow → Stream → Type 0
Holds max_rows rows stream =
    (groups : List (List TurtleRow)) × (buffer : List TurtleRow) × (stream
      ≡ record { yielded = map as_batch groups; columns = as_batch buffer })
    × (joined groups ++ buffer ≡ rows)
    × Full max_rows groups
    × (length buffer < bound max_rows)

drain_full-Holds :
    (max_rows : ℕ) (rows : List TurtleRow) (stream : Stream) (row : TurtleRow)
    → Holds max_rows rows stream
    → Holds max_rows (rows ++ (row ∷ [])) (drain_full max_rows (add_columns stream row))
drain_full-Holds max_rows rows stream row (groups, buffer, state, whole, sized, short) =
    let more = buffer ++ (row ∷ []) in
    let longer : length more ≡ suc (length buffer) =
      omega (arith, length-append buffer (row ∷ [])) in
    let counted : length (as_batch more).subject ≡ suc (length buffer) =
      length-map (λ r. r.subject) more ∙ longer in
    let added : add_columns stream row
        ≡ record { yielded = map as_batch groups; columns = as_batch more } =
      ap (λ s. add_columns s row) state
      ∙ ap (λ c. record { yielded = map as_batch groups; columns = c })
          (append_row-as_batch buffer row) in
    let moved : joined groups ++ more ≡ rows ++ (row ∷ []) =
      sym (List.append_assoc (joined groups) buffer (row ∷ [])) ∙ ap (λ t. t ++ (row ∷ [])) whole in
    subst (λ s. Holds max_rows (rows ++ (row ∷ [])) (drain_full max_rows s)) (sym added)
      (elim (Bool-cases (leb max_rows (length (as_batch more).subject))) [
        | inl e ↦
            let full : length more ≡ bound max_rows =
              longer ∙ reaches max_rows (length buffer) short (rw counted at e) in
            rw e (
              groups ++ (more ∷ []),
              [],
              ap (λ y. record { yielded = y; columns = empty_columns })
                  (sym (map-append as_batch groups (more ∷ []))),
              List.append-nil (joined (groups ++ (more ∷ [])))
                  ∙ joined-append groups (more ∷ [])
                  ∙ ap (λ t. joined groups ++ t) (List.append-nil more)
                  ∙ moved,
              Full-append max_rows groups more sized full,
              bound_pos max_rows,
            )
        | inr e ↦ rw e (
          groups,
          more,
          refl,
          moved,
          sized,
          rw longer (stays_below max_rows (length buffer) short (rw counted at e)),
        )
      ])

take_rows-Holds :
    (max_rows : ℕ) (rows more : List TurtleRow) (stream : Stream)
    → Holds max_rows rows stream
    → Holds max_rows (rows ++ more) (take_rows max_rows stream more)
unfolding take_rows
take_rows-Holds max_rows rows [] stream h =
    subst (λ r. Holds max_rows r stream) (sym (List.append-nil rows)) h
take_rows-Holds max_rows rows (row ∷ more) stream h =
    subst (λ r. Holds max_rows r (take_rows max_rows stream (row ∷ more)))
      (List.append_assoc rows (row ∷ []) more)
      (take_rows-Holds max_rows (rows ++ (row ∷ [])) more
        (drain_full max_rows (add_columns stream row))
        (drain_full-Holds max_rows rows stream row h))

drain_rest-Batched :
    (max_rows : ℕ) (rows : List TurtleRow) (stream : Stream)
    → Holds max_rows rows stream
    → Batched max_rows rows true (record { batches = (drain_rest stream).yielded; ended = true })
drain_rest-Batched max_rows rows stream (groups, [], state, whole, sized, short) =
    rw state (
      groups,
      [],
      whole,
      sized,
      short,
      refl,
      ap (λ g. map as_batch g) (sym (List.append-nil groups)),
    )
drain_rest-Batched max_rows rows stream (groups, row ∷ rest, state, whole, sized, short) =
    rw state (
      groups,
      row ∷ rest,
      whole,
      sized,
      short,
      refl,
      sym (map-append as_batch groups ((row ∷ rest) ∷ [])),
    )

kept :
    (groups : List (List TurtleRow)) (rest : List TurtleRow) (stream : Stream)
    → stream ≡ record { yielded = map as_batch groups; columns = as_batch rest }
    → stream.yielded ≡ map as_batch (groups ++ [])
kept groups rest stream state =
    ap (λ s. s.yielded) state ∙ ap (λ g. map as_batch g) (sym (List.append-nil groups))

failed-Batched :
    (max_rows : ℕ) (rows : List TurtleRow) (stream : Stream)
    → Holds max_rows rows stream
    → Batched max_rows rows false (record { batches = stream.yielded; ended = false })
failed-Batched max_rows rows stream (groups, [], state, whole, sized, short) =
    (groups, [], whole, sized, short, refl, kept groups [] stream state)
failed-Batched max_rows rows stream (groups, row ∷ rest, state, whole, sized, short) =
    (groups, row ∷ rest, whole, sized, short, refl, kept groups (row ∷ rest) stream state)

take_blobs-Batched :
    (outside : Outside) (max_rows : ℕ) (blobs : List (Option Text)) (rows : List TurtleRow)
    (stream : Stream)
    → Holds max_rows rows stream
    → Batched max_rows
        (rows ++ rows_before outside blobs)
        (none_fails outside blobs)
        (take_blobs outside max_rows stream blobs)
unfolding take_blobs
take_blobs-Batched outside max_rows [] rows stream h =
    subst (λ r. Batched max_rows r true (take_blobs outside max_rows stream []))
      (sym (List.append-nil rows)) (drain_rest-Batched max_rows rows stream h)
take_blobs-Batched outside max_rows (blob ∷ blobs) rows stream h =
    elim (Option-cases (turtle_rows_or_skip outside blob)) [
      | inl e ↦ rw e (
          subst (λ r. Batched max_rows r false (record { batches = stream.yielded; ended = false }))
            (sym (List.append-nil rows)) (failed-Batched max_rows rows stream h))
      | inr (more, e) ↦
          rw (e, ← List.append_assoc rows more (rows_before outside blobs))
            (take_blobs-Batched outside max_rows blobs (rows ++ more)
              (take_rows max_rows stream more) (take_rows-Holds max_rows rows more stream h))
    ]

-- The batches are those of consecutive groups of the rows of all blobs, in their order, up to the first
-- blob that raises an ImportError: each group has as many rows as max_rows says (one, if that is 0), but
-- for a last and shorter one with what is left, which is not empty, and is not yielded after the error. The
-- generator comes to its end exactly where no blob raises an ImportError.
pub turtle_batches_to_arrow-Batched :
    (outside : Outside) (max_rows : ℕ) (batches : List (List (Option Text)))
    → Batched max_rows
        (rows_before outside (all_blobs batches))
        (none_fails outside (all_blobs batches))
        (turtle_batches_to_arrow outside max_rows batches)
unfolding turtle_batches_to_arrow
turtle_batches_to_arrow-Batched outside max_rows batches =
    take_blobs-Batched outside max_rows (all_blobs batches) []
      (record { yielded = []; columns = empty_columns })
      ([], [], refl, refl, tt, bound_pos max_rows)
