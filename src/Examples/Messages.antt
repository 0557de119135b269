-- ===== src/Examples/Messages.antt =====
-- The theorems about klauthed-i18n, the platform's meter and the layers of a configuration, applied to small instances.
use rust_libraries.Prelude.{
  String, some, List, [], ◌∷◌, ◌≡◌, refl, Result, ok, arith, All, string_eq,
}
use rust_libraries.Prelude.Text.{chars, of_chars, trim, join}
use rust_libraries.Prelude.Map.{get, insert}
use rust_libraries.I18n.Locale
use rust_libraries.I18n.Locale.Language
use rust_libraries.I18n.Catalog
use rust_libraries.I18n.Catalog.Leaves
use rust_libraries.I18n.Format
use rust_libraries.I18n.Format.Pieces
use rust_libraries.I18n.Messages
use rust_libraries.I18n.Messages.Fallback
use rust_libraries.Config
use rust_libraries.Config.Layers
use rust_libraries.Platform.Metering
use rust_libraries.Platform.Metering.Totals

abbrev args : Format.Args
args = ("field", "email") ∷ []

-- `{{ {field} {n}`
abbrev pieces : List Pieces.Piece
pieces =
    Pieces.literal (chars "{ ")
    ∷ Pieces.placeholder (chars "field")
    ∷ Pieces.literal (chars " ")
    ∷ Pieces.placeholder (chars "n")
    ∷ []

pieces-IsPiece : All Pieces.IsPiece pieces
pieces-IsPiece =
    (tt, (((refl, (refl, (refl, (refl, (refl, tt))))), refl), (tt, (((refl, tt), refl), tt))))

interpolated : Format.interpolate "{{ {field} {n}" args ≡ "{ email {n}"
unfolding Format.interpolate Format.run Format.turn of_chars trim get
interpolated = refl

interpolate-written_example :
    Format.interpolate (of_chars (Pieces.written pieces)) args
    ≡ of_chars (Pieces.meaning args pieces)
interpolate-written_example = Pieces.interpolate-written args pieces pieces-IsPiece

abbrev turkish : Catalog.TomlTable
turkish =
    Catalog.entry "user"
      (Catalog.child (Catalog.entry "hello" (Catalog.text "Merhaba {field}") Catalog.empty))
      Catalog.empty

abbrev reads_turkish : String → Result String Catalog.TomlTable
reads_turkish toml_str = ok turkish

add_catalog-translate_example :
    (added : Messages.I18n) × (language : Locale.Locale) × (Messages.add_catalog reads_turkish
        Messages.new "TR" "…"
      ≡ ok added)
    × Language.IsLanguage "tr-tr" language
    × (Messages.translate_with added "tr-tr" "user.hello" args
        ≡ Fallback.shown "user.hello" args (
            Fallback.first_of
              (Fallback.layered Messages.new
                (Locale.new "TR")
                (Leaves.laid (Leaves.leaves turkish) [])
                "user.hello")
              (Fallback.chain Messages.new "tr-tr" language)))
add_catalog-translate_example =
    Fallback.add_catalog-translate reads_turkish Messages.new "TR" "…" turkish "tr-tr" "user.hello"
      args refl

laid_hello : Leaves.laid (Leaves.leaves turkish) [] ≡ (("user.hello", "Merhaba {field}") ∷ [])
unfolding Leaves.laid Leaves.leaves Leaves.dotted insert join
laid_hello = refl

abbrev calls : List Totals.Call
calls =
    Totals.records ("a", "api_calls") 3
    ∷ Totals.records ("b", "api_calls") 10
    ∷ Totals.resets ("b", "api_calls")
    ∷ Totals.records ("a", "api_calls") 2
    ∷ []

new-counted_example :
    (last : Metering.Meter) × (Totals.perform_all Metering.new calls ≡ some last)
    × ((key : Metering.Key) → Metering.usage last key ≡ Totals.counted key 0 calls)
new-counted_example = Totals.new-counted calls (omega arith)

abbrev defaults : Config.Value
defaults = Config.object (
    Config.field "database"
      (Config.object
        (Config.field "url" (Config.leaf "a") (Config.field "pool" (Config.leaf "5") Config.end)))
      Config.end)

abbrev production : Config.Value
production = Config.object (
    Config.field "database" (Config.object (Config.field "url" (Config.leaf "b") Config.end))
      Config.end)

production-IsValue : Layers.IsValue production
unfolding Layers.IsValue Config.lookup
production-IsValue = (refl, (refl, tt, tt), tt)

merge_value-top_leaf_example :
    Layers.leaf_at (Config.merge_value defaults production) ("database" ∷ "pool" ∷ [])
    ≡ Layers.top_leaf defaults production ("database" ∷ "pool" ∷ [])
merge_value-top_leaf_example =
    Layers.merge_value-top_leaf defaults production ("database" ∷ "pool" ∷ []) production-IsValue

pool_kept :
    Layers.leaf_at (Config.merge_value defaults production) ("database" ∷ "pool" ∷ []) ≡ some "5"
unfolding Layers.leaf_at Config.merge_value Config.lookup Config.put
pool_kept = refl

expanded :
    Config.expand_dotted (Config.field "database.url" (Config.leaf "b") Config.end)
    ≡ Config.fields_of production
unfolding Config.expand_dotted Config.merge_value Config.lookup Config.put Config.expand_from
    Config.segments of_chars Config.insert_nested
expanded = refl
