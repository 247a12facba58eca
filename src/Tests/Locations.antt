-- ===== src/Tests/Locations.antt =====
-- The theorems on the user location, and runs of their model.
use pcrf.Common.{◌<◌, ◌≡◌, ◌↔◌, refl, true, false, [], ◌∷◌, ◌++◌, arith}
use pcrf.Common.Text.{Text, bytes}
use pcrf.Common.Int.{pos, negsuc}
use pcrf.Common.Decimal.{decimal}
use pcrf.Types.{new_user_location, new_abon_rule}
use pcrf.Procera.{make_uli_rule, set_flags}
use pcrf.Uli.{out_of_bounds, returned, parse_user_location, size_of, type_cgi}
use pcrf.Uli.Fields.{cgi_of}
use pcrf.Uli.Memory.{parse_user_location-out_of_bounds}
use pcrf.Uli.Sectors.{cgi_text, make_uli_rule-parse_user_location}

-- Country 250, network 01, area 77, cell 1234.
abbrev cell_bytes : Text
cell_bytes = 0x52 ∷ 0xf0 ∷ 0x10 ∷ 0 ∷ 77 ∷ 4 ∷ 210 ∷ []

-- One byte more than the structure holds.
parse_user_location-out_of_bounds_example :
    ((parse_user_location [] (type_cgi ∷ cell_bytes ++ (0 ∷ [])) new_user_location false
        ≡ out_of_bounds)
      ↔ (7 < 8))
    × ((parse_user_location [] (type_cgi ∷ cell_bytes ++ (0 ∷ [])) new_user_location false
          ≡ returned (negsuc 0) new_user_location false)
        ↔ (9 < 7))
parse_user_location-out_of_bounds_example =
    parse_user_location-out_of_bounds [] (cell_bytes ++ (0 ∷ [])) type_cgi 7 new_user_location false
      (unfold size_of in refl)

make_uli_rule-parse_user_location_example :
    (parse_user_location [] (type_cgi ∷ cell_bytes) new_user_location false
      ≡ returned (pos 0) (record new_user_location { cgi = cgi_text cell_bytes }) true)
    × (make_uli_rule (cgi_text cell_bytes) new_abon_rule
        ≡ (0, set_flags (record new_abon_rule { rule_name = bytes "/User-Location/123/4" })))
unfolding cgi_of decimal
make_uli_rule-parse_user_location_example =
    make_uli_rule-parse_user_location [] cell_bytes new_user_location false new_abon_rule refl
      (omega arith) (omega arith)
