-- ===== src/Bench/Edge.antt =====
-- internal/bench/benchjobs: payload_large.go, payload_unicode.go and payload_nested.go.
use adele_queue.Base.{
  ℕ, zero, suc, ◌+◌, ltb, length, [], ◌∷◌, ◌++◌, Option, none, some, if◌then◌else◌,
}
use adele_queue.Base.Int.{pos}
use adele_queue.Base.Text.{Text, codes}
use adele_queue.Time.{Instant}
use adele_queue.Handler.{Outcome, succeeded, Handler}
use adele_queue.Job.{Job}
use adele_queue.Bench.{large_line, unicode_line, nested_line, World, print, with_payload, new_job}
use adele_queue.Bench.Payloads.{LargePayload, UnicodePayload, NestedLevel5, NestedPayload, Json}

-- `len(s)`: the bytes of a text in UTF-8.
byte_count : Text → ℕ
byte_count [] = 0
byte_count (c ∷ s) =
    (if ltb c 128 then 1 else (if ltb c 2048 then 2 else (if ltb c 65536 then 3 else 4)))
    + byte_count s

-- `strings.Repeat("A", n)`
repeat_a : ℕ → Text
repeat_a zero = []
repeat_a (suc n) = b'A' ∷ repeat_a n

-- `leaf`, which is empty where the pointer is nil.
leaf_of : Option NestedLevel5 → Text
leaf_of none = []
leaf_of (some l) = l.leaf

unicode_payload : UnicodePayload
unicode_payload = record {
  text =
      codes "hello "
      ++ (1605 ∷ 1585 ∷ 1581 ∷ 1576 ∷ 1575 ∷ [])
      ++ codes " 你好 Здравствуйте café"
      ++ 8205 ∷ [];
  emoji =
      (128104 ∷ 8205 ∷ 128105 ∷ 8205 ∷ 128103 ∷ 32 ∷ [])
      ++ (127987 ∷ 65039 ∷ 8205 ∷ 127752 ∷ 32 ∷ [])
      ++ (127482 ∷ 127480 ∷ []);
  lang =
      codes "ASCII-1byte/rune; 漢=3bytes/1rune; "
      ++ (127482 ∷ 127480 ∷ [])
      ++ codes "=8bytes/2runes";
}

nested_payload : Instant → NestedPayload
nested_payload now = record {
  level1 = record {
    timestamp = now;
    null_ptr = none;
    level2 = record {
      rows =
          ((codes "a", pos 1) ∷ (codes "b", pos 2) ∷ [])
          ∷ ((codes "c", pos 3) ∷ (codes "d", pos 4) ∷ [])
          ∷ [];
      int_map =
          (codes "1", codes "val-1") ∷ (codes "2", codes "val-2") ∷ (codes "3", codes "val-3") ∷ [];
      level3 = record {
        tags = codes "alpha" ∷ codes "beta" ∷ codes "gamma" ∷ [];
        metric = (codes "hits", pos 42) ∷ (codes "misses", pos 7) ∷ [];
        level4 = record { level5 = some (record { leaf = codes "bottom" }) };
      };
    };
  };
}

module _ {F : Type 0} (json : Json F) where
  run_large : LargePayload → World F → Outcome × World F
  unfolding byte_count
  run_large p w = (succeeded, print (large_line (byte_count p.data_text)) w)

  unfoldable pub large_payload_handler : Handler (World F)
  unfolding run_large
  large_payload_handler = with_payload json.large "large" run_large

  -- The size is not negative; `strings.Repeat` of a negative count panics.
  unfoldable pub new_large_payload_job : ℕ → Option (Job (World F))
  unfolding repeat_a
  new_large_payload_job size =
      new_job json.large "payload-large" large_payload_handler
        (record { data_text = repeat_a size })

  print_unicode : Text → World F → World F
  unfolding byte_count
  print_unicode s w = print (unicode_line s (byte_count s) (length s)) w

  run_unicode : UnicodePayload → World F → Outcome × World F
  unfolding print_unicode
  run_unicode p w =
      (succeeded, print_unicode p.lang (print_unicode p.emoji (print_unicode p.text w)))

  unfoldable pub unicode_handler : Handler (World F)
  unfolding run_unicode
  unicode_handler = with_payload json.unicode "unicode" run_unicode

  unfoldable pub new_unicode_job : Option (Job (World F))
  unfolding unicode_payload
  new_unicode_job = new_job json.unicode "payload-unicode" unicode_handler unicode_payload

  run_nested : NestedPayload → World F → Outcome × World F
  unfolding leaf_of
  run_nested p w =
      let l2 = p.level1.level2 in
      (
        succeeded,
        print
            (nested_line p.level1.timestamp (leaf_of l2.level3.level4.level5) (length l2.rows)
              (length l2.int_map) l2.level3.tags)
            w,
      )

  unfoldable pub nested_handler : Handler (World F)
  unfolding run_nested
  nested_handler = with_payload json.nested "nested" run_nested

  unfoldable pub new_nested_payload_job : Instant → Option (Job (World F))
  unfolding nested_payload
  new_nested_payload_job now =
      new_job json.nested "payload-nested" nested_handler (nested_payload now)
