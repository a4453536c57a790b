-- ===== src/Surface/Examples.antt =====
-- fathom/src/pass/core_to_surface.rs: a module and a term that are distilled.
use ddl.Prelude.{[], ◌∷◌, ◌≡◌, ◌↔◌, refl, arith}
use ddl.Prelude.Int.{pos}
use ddl.Core.Term as Core
use ddl.Core.Term.{Primitive, Sort, type}
use ddl.Core.Locals.{Locals, index_to_level}
use ddl.Core.Locals
use ddl.Surface.Term.{Term}
use ddl.Surface.Distill.{Display, Names, from_term, from_module}
use ddl.Surface.Restores.{from_module-restores}
use ddl.Surface.Errors.{IsClean, IsPrintable, IsClean-from_term}

-- A display for the numbers of these examples.
abbrev zeros : Display
zeros = record { int_to_string = λ _. "0"; f32_to_string = λ _. "0.0"; f64_to_string = λ _. "0.0" }

abbrev names_2 : Names
names_2 = record { entries = "len" ∷ "count" ∷ [] }

-- struct Rows : Format { rows : U8, cell : FormatArray rows U8 }
abbrev rows : Core.Module
rows = record {
  doc = [];
  items =
      Core.Item.struct_format (record {
        doc = [];
        name = "Rows";
        params = [];
        fields =
            record { doc = []; label = "rows"; type_ = Core.Term.global "U8" }
            ∷ record {
              doc = [];
              label = "cell";
              type_ =
                  Core.Term.function_elim
                    (Core.Term.function_elim (Core.Term.global "FormatArray") (Core.Term.local 0))
                    (Core.Term.global "U8");
            }
            ∷ [];
      })
      ∷ [];
}

from_module-restores_example : (from_module zeros rows names_2).1 ≡ names_2
from_module-restores_example = from_module-restores zeros rows names_2 (omega arith)

-- if len { 0 } else { count }, with the newest local first.
abbrev conditional : Core.Term
conditional =
    Core.Term.bool_elim (Core.Term.local 1) (Core.Term.primitive (Primitive.int (pos 0)))
      (Core.Term.local 0)

conditional_distilled :
    from_term zeros names_2 conditional
    ≡ Term.if_term (Term.name "len") (Term.number_literal "0") (Term.name "count")
unfolding from_term Locals.get Locals.size index_to_level
conditional_distilled = refl

IsClean-from_term_example :
    IsClean (from_term zeros names_2 conditional) ↔ IsPrintable 2 conditional
IsClean-from_term_example = IsClean-from_term zeros names_2 (omega arith) conditional
