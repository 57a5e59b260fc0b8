-- ===== src/Nodes/Once.antt =====
-- spark_jobs/pyg_builder/node_mapper.py: every entity is numbered once.
use pyg_knowledge_graph_buil.Base.{[], ◌∷◌, false, List, All, ◌≡◌}
use pyg_knowledge_graph_buil.Base.Texts.{Text, text_eq, among}
use pyg_knowledge_graph_buil.Sources.{sorted_texts}
use pyg_knowledge_graph_buil.Sources.Paths.Read.{Rises}
use pyg_knowledge_graph_buil.Nodes.First.{First}
use pyg_knowledge_graph_buil.Nodes.Numbers.{of_type, uris}
use pyg_knowledge_graph_buil.Nodes.{TypeRow, NodeRow, ranked, number_from, uris_of}

-- No URI is in two rows.
abbrev pub OncePerUri : List TypeRow → Type 0
OncePerUri [] = Unit
OncePerUri ((uri, _) ∷ rows) = All (λ row. text_eq uri row.0 ≡ false) rows × OncePerUri rows

-- What the table of nodes is, of the rows of types that the filters leave.
abbrev pub Numbered : List TypeRow → List NodeRow → Type 0
Numbered rows nodes =
    OncePerUri (ranked rows)
    × ((uri : Text) → among uri (uris (ranked rows)) ≡ among uri (uris rows))
    × All (λ row. First rows row.0 row.1) (ranked rows)
    × ((name : Text)
        → (of_type name nodes ≡ number_from name 0 (sorted_texts (uris_of name (ranked rows))))
          × Rises (sorted_texts (uris_of name (ranked rows))))
