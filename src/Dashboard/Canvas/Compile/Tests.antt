-- ===== src/Dashboard/Canvas/Compile/Tests.antt =====
-- A canvas of apps/dashboard/lib/canvas that is deployable and whose policy the schema refuses.
use kp.Common.{
  Option, not, ◌∙◌, ◌≡◌, refl, true, false, ◌&&◌, none, List, [], ◌∷◌, Text, lit, text_eq,
}
use kp.Common.Maps.{lookup}
use kp.Common.Numbers.{is_space, trim, trim_start, digit, read_digits}
use kp.Policy.Schema.{is_uint, is_hex_of, accepts}
use kp.Dashboard.Canvas.Blocks.{BlockKind, same_kind, spec_for}
use kp.Dashboard.Canvas.Compile.{
  value, PlacedBlock, CompileOptions, first, field_issues, validate, issues_of, compile,
}
use kp.Dashboard.Canvas.Compile.Valid.{fits_carried}
use kp.Dashboard.Canvas.Compile.Refused.{counts, starts_late, compile-accepts}

abbrev address : Text
address = lit "0x2BeaFD2Ed0D8e3831752b3243E7C5b2CA67Fdb0B"

abbrev blocks : List PlacedBlock
blocks =
    record { id = lit "t"; kind = BlockKind.target; values = (lit "address", address) ∷ [] }
    ∷ record {
      id = lit "r";
      kind = BlockKind.rate_limit;
      values =
          (lit "maxIntents", lit "20")
          ∷ (lit "windowSeconds", lit "0")
          ∷ (lit "maxValue", lit "5")
          ∷ [];
    }
    ∷ record {
      id = lit "f";
      kind = BlockKind.invariant_floor;
      values =
          (lit "target", address)
          ∷ (lit "probe", lit "0xbf92857c")
          ∷ (lit "word", lit "5")
          ∷ (lit "threshold", lit "14")
          ∷ [];
    }
    ∷ []

abbrev options : CompileOptions
options = record {
  carry_over = record {
    chains = none;
    max_gas = none;
    unknown_counterparty = none;
    min_invariants = none;
  };
  name = none;
}

deployable : (compile blocks options).deployable ≡ true
unfolding compile issues_of validate field_issues spec_for same_kind first lookup trim trim_start
    is_space digit is_uint is_hex_of text_eq lit
deployable = refl

carried : fits_carried options.carry_over ≡ true
unfolding is_uint lit
carried = refl

abbrev rate : Option PlacedBlock
rate = first blocks BlockKind.rate_limit

unlimited : counts (value rate (lit "windowSeconds") (lit "3600")) ≡ false
unfolding same_kind first lookup trim trim_start is_space digit text_eq lit read_digits
unlimited = refl

compile-accepts_example : accepts (compile blocks options).policy ≡ (
    counts (value rate (lit "windowSeconds") (lit "3600"))
    && counts (value rate (lit "maxIntents") (lit "1"))
    && not (starts_late (first blocks BlockKind.schedule)))
compile-accepts_example = compile-accepts blocks options deployable carried

schema_refuses : accepts (compile blocks options).policy ≡ false
schema_refuses = compile-accepts_example ∙ rw unlimited refl
