-- ===== src/Trim/Table.antt =====
-- The list of positions that feature_trim.py fixes, and which builds it applies to. The values are
-- whole numbers, so they stand as natural numbers here.
use pyg_knowledge_graph_buil.Base.{
  false, ℕ, [], ◌∷◌, List, Bool, if◌then◌else◌, not, ◌==◌, ◌&&◌, length, ◌+◌, ◌≡◌, refl, true,
  Bool-cases, inl, ==_iff, &&_iff, inr,
}
use pyg_knowledge_graph_buil.Layout.Node.{VectorLayout}
use pyg_knowledge_graph_buil.Base.Dict.{range_from, sort_items, insert_item, range}
use pyg_knowledge_graph_buil.Base.Result.{Result, ok, ◌>>=◌}
use pyg_knowledge_graph_buil.Trim.{
  TrimError, String, TrimSpec, trim_spec, width, problems, make_spec,
}

abbrev pub option_kept : List ℕ
option_kept =
    258
    ∷ 260
    ∷ 278
    ∷ 281
    ∷ 285
    ∷ 289
    ∷ 323
    ∷ 326
    ∷ 332
    ∷ 363
    ∷ 381
    ∷ 385
    ∷ 411
    ∷ 417
    ∷ 439
    ∷ 453
    ∷ 549
    ∷ 649
    ∷ 655
    ∷ 662
    ∷ 665
    ∷ 666
    ∷ 667
    ∷ 668
    ∷ 677
    ∷ 683
    ∷ 687
    ∷ 698
    ∷ 700
    ∷ 717
    ∷ 729
    ∷ 730
    ∷ 779
    ∷ 784
    ∷ 799
    ∷ 809
    ∷ 810
    ∷ 833
    ∷ 853
    ∷ 857
    ∷ 859
    ∷ 860
    ∷ 872
    ∷ 877
    ∷ 883
    ∷ 895
    ∷ range_from 897 127

abbrev pub option_constant : List (ℕ × ℕ)
option_constant =
    (18, 1)
    ∷ (20, 1)
    ∷ (44, 1)
    ∷ (111, 1)
    ∷ (240, 1)
    ∷ (256, 1)
    ∷ (261, 1)
    ∷ (263, 1)
    ∷ (265, 1)
    ∷ (266, 1)
    ∷ (268, 1)
    ∷ (269, 2)
    ∷ (272, 1)
    ∷ (274, 2)
    ∷ (280, 2)
    ∷ (288, 1)
    ∷ (292, 1)
    ∷ (294, 1)
    ∷ (295, 1)
    ∷ (296, 1)
    ∷ (299, 2)
    ∷ (301, 1)
    ∷ (302, 1)
    ∷ (304, 1)
    ∷ (305, 2)
    ∷ (306, 1)
    ∷ (308, 1)
    ∷ (309, 1)
    ∷ (311, 1)
    ∷ (315, 2)
    ∷ (319, 2)
    ∷ (320, 2)
    ∷ (322, 1)
    ∷ (324, 1)
    ∷ (325, 1)
    ∷ (328, 1)
    ∷ (331, 4)
    ∷ (333, 1)
    ∷ (335, 1)
    ∷ (336, 1)
    ∷ (339, 2)
    ∷ (340, 1)
    ∷ (343, 3)
    ∷ (344, 1)
    ∷ (348, 2)
    ∷ (349, 1)
    ∷ (351, 1)
    ∷ (354, 2)
    ∷ (356, 1)
    ∷ (357, 1)
    ∷ (361, 1)
    ∷ (370, 1)
    ∷ (371, 1)
    ∷ (372, 2)
    ∷ (373, 1)
    ∷ (377, 1)
    ∷ (378, 1)
    ∷ (380, 2)
    ∷ (384, 1)
    ∷ (389, 2)
    ∷ (393, 1)
    ∷ (397, 1)
    ∷ (398, 1)
    ∷ (401, 1)
    ∷ (402, 1)
    ∷ (403, 1)
    ∷ (409, 2)
    ∷ (410, 1)
    ∷ (413, 1)
    ∷ (415, 1)
    ∷ (416, 1)
    ∷ (419, 1)
    ∷ (420, 1)
    ∷ (421, 1)
    ∷ (422, 2)
    ∷ (424, 1)
    ∷ (429, 1)
    ∷ (430, 1)
    ∷ (432, 1)
    ∷ (435, 1)
    ∷ (437, 1)
    ∷ (441, 1)
    ∷ (442, 1)
    ∷ (443, 2)
    ∷ (444, 1)
    ∷ (445, 1)
    ∷ (446, 1)
    ∷ (447, 1)
    ∷ (518, 1)
    ∷ (522, 1)
    ∷ (536, 7)
    ∷ (541, 23)
    ∷ (558, 5)
    ∷ (630, 2)
    ∷ (632, 2)
    ∷ []

abbrev pub option_copy_of : List (ℕ × ℕ)
option_copy_of =
    (341, 278) ∷ (382, 323) ∷ (400, 260) ∷ (431, 417) ∷ (433, 326) ∷ (514, 323) ∷ (528, 417) ∷ []

-- `trims_for`: one spec, or none where trimming is off or the layout is not the measured one.
unfoldable pub trims_for : VectorLayout → Bool → Result TrimError (List (String × TrimSpec ℕ))
trims_for layout enabled =
    if not enabled
    then ok []
    else if layout.vector_dim == 1024 && layout.seg1_class_identity_dim == 192
    then (do
      spec ←
          trim_spec "market_quotes_OptionSnapshot" layout.vector_dim option_kept option_constant
            option_copy_of
      ok (("market_quotes_OptionSnapshot", spec) ∷ []))
    else ok []

pub option_spec : TrimSpec ℕ
unfolding make_spec sort_items insert_item range
option_spec =
    make_spec "market_quotes_OptionSnapshot" 1024 option_kept option_constant option_copy_of

option_accepted :
    trim_spec "market_quotes_OptionSnapshot" 1024 option_kept option_constant option_copy_of
    ≡ ok option_spec
unfolding option_spec trim_spec problems
option_accepted = refl

accepted_at :
    (n : ℕ)
    → n ≡ 1024
    → trim_spec "market_quotes_OptionSnapshot" n option_kept option_constant option_copy_of
      ≡ ok option_spec
accepted_at n e = rw e option_accepted

on_measured :
    (layout : VectorLayout)
    → trims_for layout true
      ≡ ok (
          if layout.vector_dim == 1024 && layout.seg1_class_identity_dim == 192
          then ("market_quotes_OptionSnapshot", option_spec) ∷ []
          else [])
unfolding trims_for
on_measured layout =
    elim (Bool-cases (layout.vector_dim == 1024 && layout.seg1_class_identity_dim == 192)) [
      | inl e ↦ rw (
        e,
        accepted_at layout.vector_dim ((==_iff layout.vector_dim 1024).0 ((&&_iff _ _).0 e).0),
      )
      | inr e ↦ rw e
    ]

-- The positions that a spec leaves out of x.
abbrev pub dropped : TrimSpec ℕ → ℕ
dropped s = length s.zero_positions + length s.constant + length s.copy_of

-- The fixed list has no problem, so `trims_for` never raises: a build on the measured layout with
-- trimming on gets one spec, which keeps 173 positions and drops 851, and any other build gets none.
pub trims_for-total :
    (layout : VectorLayout) (enabled : Bool)
    → (trims_for layout enabled
        ≡ ok (
            if enabled && layout.vector_dim == 1024 && layout.seg1_class_identity_dim == 192
            then ("market_quotes_OptionSnapshot", option_spec) ∷ []
            else []))
      × (width option_spec ≡ 173)
      × (dropped option_spec ≡ 851)
unfolding trims_for option_spec width
trims_for-total layout false = (refl, refl, refl)
trims_for-total layout true = (on_measured layout, refl, refl)
