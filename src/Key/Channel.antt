-- ===== src/Key/Channel.antt =====
-- What `RedisKeyspaceFormater` of api/redis.go makes of a channel's name.
use adele_queue.Base.{ℕ, ◌≡◌, ◌≢◌, refl, ap, ◌∙◌, arith, [], ◌∷◌, ltb, ◌==◌, Bool-cases, inl, inr}
use adele_queue.Base.Text.{Text}
use adele_queue.Key.{to_lower, IsLowerTable, redis_keyspace_formater}
use adele_queue.Key.Split.{NoColon}

module _ (lower : ℕ → ℕ) (table : IsLowerTable lower) where
  to_lower_idem : (c : ℕ) → to_lower lower (to_lower lower c) ≡ to_lower lower c
  unfolding to_lower
  to_lower_idem c = elim (Bool-cases (ltb c 128)) [
    | inl ascii ↦ rw ascii (ground arith)
    | inr other ↦ rw other (table.stable c (ground arith))
  ]

  to_lower_no_mark :
      (c : ℕ)
      → c ≢ b':'
      → c ≢ b' '
      → c ≢ b','
      → (to_lower lower c ≢ b':') × (to_lower lower c ≢ b' ') × (to_lower lower c ≢ b',')
  unfolding to_lower
  to_lower_no_mark c colon space comma = ground (arith, table.no_mark c)

  -- A formatted name holds no colon, so that keys with it can be taken apart, whatever the name is;
  -- Unicode's table is taken to give no colon.
  pub redis_keyspace_formater-NoColon : (s : Text) → NoColon (redis_keyspace_formater lower s)
  unfolding redis_keyspace_formater
  redis_keyspace_formater-NoColon [] = tt
  redis_keyspace_formater-NoColon (c ∷ s) =
      ground (arith, redis_keyspace_formater-NoColon s, to_lower_no_mark c)

  -- A character that is in lower case and is not replaced is kept.
  formater_keeps :
      (c : ℕ) (s : Text)
      → (c ≢ b':') × (c ≢ b' ') × (c ≢ b',')
      → to_lower lower c ≡ c
      → redis_keyspace_formater lower (c ∷ s) ≡ c ∷ redis_keyspace_formater lower s
  unfolding redis_keyspace_formater
  formater_keeps c s plain e = ground arith

  formater_cons :
      (c : ℕ) (s t : Text)
      → redis_keyspace_formater lower t ≡ s
      → (c ≢ b':') × (c ≢ b' ') × (c ≢ b',')
      → to_lower lower c ≡ c
      → redis_keyspace_formater lower (c ∷ t) ≡ c ∷ s
  formater_cons c s t h plain e = formater_keeps c t plain e ∙ ap (λ (r : Text). c ∷ r) h

  -- Formatting a formatted name changes nothing, if the results of Unicode's table are in lower
  -- case and none of them is replaced.
  pub redis_keyspace_formater_idem :
      (s : Text)
      → redis_keyspace_formater lower (redis_keyspace_formater lower s)
        ≡ redis_keyspace_formater lower s
  unfolding redis_keyspace_formater
  redis_keyspace_formater_idem [] = refl
  redis_keyspace_formater_idem (c ∷ s) =
      let ih = redis_keyspace_formater_idem s in
      elim (Bool-cases (c == b':')) [
        | inl colon ↦ rw colon ih
        | inr not_colon ↦ elim (Bool-cases (c == b' ')) [
          | inl space ↦ rw (not_colon, space) (ap (λ (r : Text). b'-' ∷ r) ih)
          | inr not_space ↦ elim (Bool-cases (c == b',')) [
            | inl comma ↦ rw (not_colon, not_space, comma) ih
            | inr not_comma ↦
                rw (not_colon, not_space, not_comma)
                  (formater_cons (to_lower lower c) _ (redis_keyspace_formater lower s) ih
                    (to_lower_no_mark c (ground arith) (ground arith) (ground arith))
                    (to_lower_idem c))
          ]
        ]
      ]
