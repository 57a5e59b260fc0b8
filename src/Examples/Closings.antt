-- ===== src/Examples/Closings.antt =====
-- Holidays of 2026 and the New Year's Day of 2022, a Saturday.
use pyg_knowledge_graph_buil.Base.{some, ◌≡◌, refl, true, arith}
use pyg_knowledge_graph_buil.Base.Int.{pos, negsuc}
use pyg_knowledge_graph_buil.Holidays.{date, nth_weekday, holiday, holidays, new_year}
use pyg_knowledge_graph_buil.Holidays.Workdays.{
  IsNth, nth_weekday-IsNth, Workdays, holidays-Workdays,
}

thanksgiving_2026 : nth_weekday 2026 11 3 (pos 4) ≡ date 2026 11 26
unfolding nth_weekday
thanksgiving_2026 = refl

memorial_2026 : nth_weekday 2026 5 0 (negsuc 0) ≡ date 2026 5 25
unfolding nth_weekday
memorial_2026 = refl

new_year_2022 : holiday 2021 (date 2021 12 31) ≡ some (new_year, true)
unfolding holiday
new_year_2022 = refl

nth_weekday-IsNth_example : IsNth 2026 11 3 (pos 4) (nth_weekday 2026 11 3 (pos 4))
nth_weekday-IsNth_example = nth_weekday-IsNth 2026 11 3 (pos 4) (omega arith) (omega arith)

holidays-Workdays_example : Workdays (holidays 2022)
holidays-Workdays_example = holidays-Workdays 2022
