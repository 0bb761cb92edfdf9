-- ===== src/Tests/Formats.antt =====
-- Values that have the format `human-uuid`, and others.
use hedwig_python.Prelude.{String, ◌≡◌, refl, ◌↔◌, true, false}
use hedwig_python.Prelude.Int.{pos}
use hedwig_python.Python.Value.{Value, str, int}
use hedwig_python.Version.{at_end}
use hedwig_python.JsonSchema.Formats.{hex_run, uuid_runs, check_human_uuid}
use hedwig_python.JsonSchema.Formats.HumanUuid.{IsHumanUuid, check_human_uuid_exact}

check_human_uuid_runs :
    (check_human_uuid (str "b1328174-a21c-43d3-b303-964dfcc76efc") ≡ true)
    × (check_human_uuid (str "b1328174-a21c-43d3-b303-964dfcc76efc\n") ≡ true)
    × (check_human_uuid (str "B1328174-a21c-43d3-b303-964dfcc76efc") ≡ false)
    × (check_human_uuid (str "b1328174a21c43d3b303964dfcc76efc") ≡ false)
    × (check_human_uuid (int (pos 1)) ≡ false)
unfolding check_human_uuid uuid_runs hex_run at_end
check_human_uuid_runs = (refl, refl, refl, refl, refl)

abbrev sample_uuid : Value
sample_uuid = str "b1328174-a21c-43d3-b303-964dfcc76efc"

check_human_uuid_exact_example :
    (check_human_uuid sample_uuid ≡ true) ↔ ((s : String) × (sample_uuid ≡ str s) × IsHumanUuid s)
check_human_uuid_exact_example = check_human_uuid_exact sample_uuid
