-- ===== src/Locker/Log.antt =====
-- The transparency log library and SHA-256, parameters of the model, with what the documentation of
-- Tessera promises: a log only grows, an index that Add returns is that of the entry, and the entry of
-- an integrated index stands in the bundle of the index.
use complytime_core.Prelude.{ℕ, ◌≡◌, ◌<◌, ◌/◌, ◌%◌, String, List, Option, some, get_elem?}
use complytime_core.Errors.{Result, ok}

abbrev pub Bytes : Type 0
Bytes = List ℕ

pub record Tessera : Type 1 where
  -- A log: the appender, the reader and the files.
  pub Log : Type 0
  -- What stands in a log, by index.
  pub entry : Log → ℕ → Option Bytes
  -- `appender.Add(ctx, entry)` and the wait for its future.
  pub add : Log → Bytes → Log × Result ℕ
  pub integrated_size : Log → Result ℕ
  -- `layout.EntryBundleWidth` and `layout.PartialTileSize`.
  pub entry_bundle_width : ℕ
  pub partial_tile_size : ℕ → ℕ → ℕ → ℕ
  pub read_entry_bundle : Log → ℕ → ℕ → Result Bytes
  -- `api.EntryBundle.UnmarshalText`.
  pub unmarshal_bundle : Bytes → Result (List Bytes)
  -- SHA-256, in hexadecimal digits.
  pub sum256_hex : Bytes → String
  pub add_entry : (l : Log) (d : Bytes) (i : ℕ) → (add l d).1 ≡ ok i → entry (add l d).0 i ≡ some d
  pub add_keeps :
      (l : Log) (d : Bytes) (i : ℕ) (e : Bytes) → entry l i ≡ some e → entry (add l d).0 i ≡ some e
  pub bundle_entry :
      (l : Log) (size index : ℕ) (raw : Bytes) (entries : List Bytes) (e : Bytes)
      → integrated_size l ≡ ok size
      → index < size
      → read_entry_bundle l
          (index / entry_bundle_width)
          (partial_tile_size 0 (index / entry_bundle_width) size)
        ≡ ok raw
      → unmarshal_bundle raw ≡ ok entries
      → get_elem? entries (index % entry_bundle_width) ≡ some e
      → entry l index ≡ some e
