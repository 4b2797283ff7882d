-- ===== src/Tests/Money.antt =====
-- Rupee texts of a few amounts.
use reclaim_os.Prelude.{◌≡◌, refl, arith, codes, Text, List, concat, join, ◌++◌}
use reclaim_os.Prelude.Int.{pos, negsuc}
use reclaim_os.Prelude.Decimal.{decimal, decimal_on}
use reclaim_os.Money.{
  paise, not_plain, rupees, plain_decimal, unsigned_decimal, at_point, to_paise, round_half_up,
  to_rupee_str, two_digits, format_inr, groups_of, group_head,
}
use reclaim_os.Money.Plain.{rupees-to_rupee_str}
use reclaim_os.Money.Grouping.{format_inr-to_rupee_str, IsIndian, without_marks}

-- Half a paisa is rounded away from zero.
rupees_of_half : rupees (codes "-0.005") ≡ paise (negsuc 0)
unfolding rupees plain_decimal unsigned_decimal at_point to_paise round_half_up
rupees_of_half = refl

rupees_of_word : rupees (codes "ten") ≡ not_plain
unfolding rupees plain_decimal unsigned_decimal at_point
rupees_of_word = refl

format_inr_of_lakhs : format_inr (pos 12345678) ≡ codes "₹1,23,456.78"
unfolding format_inr groups_of group_head two_digits decimal decimal_on
format_inr_of_lakhs = refl

rupees-to_rupee_str_example : rupees (to_rupee_str (negsuc 4)) ≡ paise (negsuc 4)
rupees-to_rupee_str_example = rupees-to_rupee_str (negsuc 4) (omega arith)

format_inr-to_rupee_str_example :
    ((gs : List Text) × IsIndian gs
      × (concat gs ≡ decimal 123456)
      × (format_inr (pos 12345678)
          ≡ codes "₹" ++ (join (codes ",") gs ++ (codes "." ++ two_digits 78))))
    × (without_marks (format_inr (pos 12345678)) ≡ to_rupee_str (pos 12345678))
format_inr-to_rupee_str_example = format_inr-to_rupee_str (pos 12345678)
