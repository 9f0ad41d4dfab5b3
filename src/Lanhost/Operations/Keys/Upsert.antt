-- ===== src/Lanhost/Operations/Keys/Upsert.antt =====
-- `INSERT … ON CONFLICT … DO UPDATE` of internal/lanhost/store.go keeps both keys of the agents:
-- the name that it writes is one that no other agent of the Project has.
use peercontext.Common.{
  ℕ, ◌≡◌, refl, ◌∙◌, true, false, List, [], ◌∷◌, any, arith, subst, Bool-cases, inl, inr, string_eq,
  ==_iff,
}
use peercontext.Common.Unique.{Unique, any_congr}
use peercontext.Errors.{ok, Result-cases}
use peercontext.Lanhost.Sql.{insert_row, update_where}
use peercontext.Lanhost.Sql.Keys.{insert_row-Unique, update_where-Unique}
use peercontext.Lanhost.Store.Tables.{AgentRow, Tables, agent_at, agent_named}
use peercontext.Lanhost.Store.Agents.{upsert_agent, owned_same, rewrite, name_taken}
use peercontext.Lanhost.Operations.Keys.{
  HasKeys, same_agent, same_agent_name, pair_comm, with_agents,
}

-- No row has the key, so none is updated.
update_absent :
    (row : AgentRow) (rows : List AgentRow)
    → any (agent_at row.project_id row.id) rows ≡ false
    → update_where (owned_same row) (rewrite row) rows ≡ rows
unfolding any update_where
update_absent row [] h = refl
update_absent row (r ∷ rs) h = ground (arith, update_absent row rs)

module _ (row : AgentRow) where
  -- a row that is updated has the key of `row`, and then its name
  renamed : AgentRow → AgentRow
  renamed = rewrite row

  -- In the rows behind an updated one, the new name is free.
  name_free :
      (rows : List AgentRow)
      → any (name_taken row) rows ≡ false
      → any (agent_at row.project_id row.id) rows ≡ false
      → any (agent_named row.project_id row.name) rows ≡ false
  unfolding any name_taken
  name_free [] h k = refl
  name_free (r ∷ rs) h k = ground (arith, name_free rs)

  -- A row that is not updated meets the new name nowhere.
  name_apart :
      (r : AgentRow) (rows : List AgentRow)
      → name_taken row r ≡ false
      → any (same_agent r) rows ≡ false
      → any (same_agent_name r) rows ≡ false
      → any (same_agent_name r) (update_where (owned_same row) (rewrite row) rows) ≡ false
  unfolding any update_where name_taken
  name_apart r [] free ids names = refl
  name_apart r (s ∷ rs) free ids names = ground (
    arith,
    name_apart r rs free,
    ==_iff r.project_id row.project_id,
    ==_iff s.project_id row.project_id,
    ==_iff s.project_id r.project_id,
    ==_iff r.id row.id,
    ==_iff s.id row.id,
    ==_iff s.id r.id,
    ==_iff r.name row.name,
    ==_iff row.name r.name,
  )

  -- The tests by two equal keys agree.
  same_key :
      (r : AgentRow)
      → owned_same row r ≡ true
      → (s : AgentRow) → agent_at row.project_id row.id s ≡ same_agent r s
  same_key r hit s = ground (arith, ==_iff r.project_id row.project_id, ==_iff r.id row.id)

  same_name :
      (r : AgentRow)
      → owned_same row r ≡ true
      → (s : AgentRow) → same_agent_name (rewrite row r) s ≡ agent_named row.project_id row.name s
  same_name r hit s = ground (arith, ==_iff r.project_id row.project_id)

  rename-Unique :
      (rows : List AgentRow)
      → any (name_taken row) rows ≡ false
      → Unique same_agent rows
      → Unique same_agent_name rows
      → Unique same_agent_name (update_where (owned_same row) (rewrite row) rows)
  unfolding any update_where
  rename-Unique [] free ids names = tt
  rename-Unique (r ∷ rs) free ids names = elim (Bool-cases (owned_same row r)) [
    | inl hit ↦
        let absent : any (agent_at row.project_id row.id) rs ≡ false =
          any_congr (agent_at row.project_id row.id) (same_agent r) rs (same_key r hit) ∙ ids.0 in
        rw (hit, update_absent row rs absent)
          (
            any_congr (same_agent_name (rewrite row r)) (agent_named row.project_id row.name) rs
                  (same_name r hit)
                ∙ name_free rs (ground arith) absent,
            names.1,
          )
    | inr miss ↦ rw miss (
      name_apart r rs (ground arith) ids.0 names.0,
      rename-Unique rs (ground arith) ids.1 names.1,
    )
  ]

module _ (t : Tables) (n : ℕ) (t' : Tables) (k : HasKeys t) (row : AgentRow) where
  renamed-HasKeys :
      any (name_taken row) t.agents ≡ false
      → HasKeys (record t { agents = update_where (owned_same row) (rewrite row) t.agents })
  renamed-HasKeys free =
      with_agents k _
        (update_where-Unique same_agent (owned_same row) (rewrite row) t.agents (λ r s. refl)
          (λ r s. refl) k.agents)
        (rename-Unique row t.agents free k.agents k.agent_names)

  added-HasKeys :
      (rows : List AgentRow)
      → any (agent_at row.project_id row.id) t.agents ≡ false
      → insert_row (agent_named row.project_id row.name) row t.agents ≡ ok rows
      → HasKeys (record t { agents = rows })
  added-HasKeys rows absent e =
      with_agents k rows
        (insert_row-Unique same_agent (λ x y. pair_comm x.project_id y.project_id x.id y.id) _ row
          t.agents rows k.agents (λ _. absent) e)
        (insert_row-Unique same_agent_name
          (λ x y. pair_comm x.project_id y.project_id x.name y.name) _ row t.agents rows
          k.agent_names (λ c. c) e)

  pub upsert_agent-HasKeys : upsert_agent row t ≡ ok (n, t') → HasKeys t'
  unfolding upsert_agent
  upsert_agent-HasKeys h = elim (Bool-cases (any (agent_at row.project_id row.id) t.agents)) [
    | inl there ↦ elim (Bool-cases (any (owned_same row) t.agents)) [
      | inl mine ↦ elim (Bool-cases (any (name_taken row) t.agents)) [
        | inl taken ↦ absurd (ground (arith, there, mine, taken))
        | inr free ↦
            let q : record t { agents = update_where (owned_same row) (rewrite row) t.agents }
                ≡ t' =
              ground (arith, there, mine, free) in
            subst HasKeys q (renamed-HasKeys free)
      ]
      | inr other ↦ let q : t ≡ t' = ground (arith, there, other) in subst HasKeys q k
    ]
    | inr absent ↦
        elim (Result-cases (insert_row (agent_named row.project_id row.name) row t.agents)) [
          | inl (rows, e) ↦
              let q : record t { agents = rows } ≡ t' = ground (arith, absent, e) in
              subst HasKeys q (added-HasKeys rows absent e)
          | inr (x, e) ↦ absurd (ground (arith, absent, e))
        ]
  ]
