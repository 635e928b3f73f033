-- ===== src/Tests/Records.antt =====
-- The theorems on the registry's file, at concrete inputs.
use Prim.Native.Char.{code}
use nexus_cloud.Base.{
  eqb, if◌then◌else◌, Stamp, at, unreadable, ℕ, zero, suc, String, ◌≡◌, refl, true, some, [], ◌∷◌,
}
use nexus_cloud.Base.Json.{Value, obj, str, flag, arr, items_of, fields_of}
use nexus_cloud.SystemsApi.Types.{Tool, Delivery}
use nexus_cloud.SystemsApi.Paths.{is_safe_relative_path}
use nexus_cloud.SystemsApi.Store.{Records, sanitize_records}
use nexus_cloud.SystemsApi.Store.Saving.{records_value}
use nexus_cloud.SystemsApi.Store.Reloading.{named, sanitize_records-saved}
use nexus_cloud.SystemsApi.Store.Settled.{sanitize_records-again}
use nexus_cloud.Tests.Data.{env, tool, address, exposure, binding, url}

-- A way of writing instants: a mark for the kind, and the milliseconds in strokes or the text.
strokes : ℕ → String
strokes zero = ""
strokes (suc n) = String.◌∷◌ "i" (strokes n)

count : String → ℕ
count String.[] = 0
count (String.◌∷◌ c s) = suc (count s)

print_stamp : Stamp → String
print_stamp (at n) = String.◌∷◌ "a" (strokes n)
print_stamp (unreadable s) = String.◌∷◌ "u" s

read_stamp : String → Stamp
read_stamp String.[] = unreadable ""
read_stamp (String.◌∷◌ c s) = if eqb (code c) b'a' then at (count s) else unreadable s

count-strokes : (n : ℕ) → count (strokes n) ≡ n
unfolding count strokes
count-strokes zero = refl
count-strokes (suc n) = rw (count-strokes n)

read_stamp-print_stamp : (t : Stamp) → read_stamp (print_stamp t) ≡ t
unfolding read_stamp print_stamp
read_stamp-print_stamp (at n) = rw (count-strokes n)
read_stamp-print_stamp (unreadable s) = refl

-- A tool that is delivered, and one without a description.
abbrev delivered : Tool
delivered = record tool { delivery = some Delivery.framed; path = some "/photos" }

abbrev undescribed : Tool
undescribed = record delivered { id = "notes"; description = "" }

abbrev records : Records
records = record {
  tools = delivered ∷ undescribed ∷ [];
  public_urls = url ∷ [];
  addresses = address ∷ [];
  history = [];
  exposures = exposure ∷ [];
  domains = binding ∷ [];
}

sanitize_records-saved_example :
    sanitize_records read_stamp env (records_value print_stamp records) ≡ named records
unfolding is_safe_relative_path
sanitize_records-saved_example =
    sanitize_records-saved read_stamp print_stamp read_stamp-print_stamp env records (
      record { delivery = tt; path = refl; profile = tt },
      (record { delivery = tt; path = refl; profile = tt }, tt),
    )

-- The tool without a description is gone.
undescribed_is_dropped : (named records).tools ≡ delivered ∷ []
undescribed_is_dropped = refl

-- A file with a tool that lacks most of its fields, and one that is no object.
abbrev raw_file : Value
raw_file = obj (
    fields_of (
      (
        "tools",
        arr (
            items_of (
              obj (
                fields_of (
                  ("id", str "notes")
                  ∷ ("name", str "Notes")
                  ∷ ("description", str "texts")
                  ∷ ("exposed", flag true)
                  ∷ []))
              ∷ str "notes"
              ∷ [])),
      )
      ∷ []))

sanitize_records-again_example :
    sanitize_records read_stamp env
      (records_value print_stamp (sanitize_records read_stamp env raw_file))
    ≡ sanitize_records read_stamp env raw_file
sanitize_records-again_example =
    sanitize_records-again read_stamp print_stamp read_stamp-print_stamp env env raw_file
