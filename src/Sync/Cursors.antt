-- ===== src/Sync/Cursors.antt =====
-- control-plane/src/domains/sync/syncCursorRepository.ts: the edge node of an API key, and the
-- cursor that an edge node has confirmed. Statements that fail are logged, and change nothing.
use verilink.Base.{
  ℕ, ◌≡◌, refl, max, Bool, true, ◌&&◌, none, some, List, [], ◌∷◌, ◌++◌, String, arith,
  if◌then◌else◌, find, find-append, Option-cases, inl, inr, ap, ◌∙◌, sym,
}
use verilink.Base.Texts.{str_eq, eq_iff, eq_refl}

pub record EdgeNode : Type 0 where
  pub id : String
  pub tenant_id : String
  pub api_key_id : String

abbrev pub is_of_key : String → String → EdgeNode → Bool
is_of_key tenant key n = str_eq n.tenant_id tenant && str_eq n.api_key_id key

-- The node of the key and the table afterwards. `fresh` is the id that the database would give.
unfoldable pub resolve_edge_node_for_api_key :
    String → String → String → List EdgeNode → String × List EdgeNode
resolve_edge_node_for_api_key fresh tenant key nodes = elim (find (is_of_key tenant key) nodes) [
  | some n ↦ (n.id, nodes)
  | none ↦ (fresh, nodes ++ (record { id = fresh; tenant_id = tenant; api_key_id = key } ∷ []))
]

pub record SyncCursor : Type 0 where
  pub tenant_id : String
  pub edge_node_id : String
  pub last_cursor : ℕ

-- The upsert with GREATEST.
unfoldable pub upsert_sync_cursor : String → String → ℕ → List SyncCursor → List SyncCursor
upsert_sync_cursor tenant node cursor [] =
    record { tenant_id = tenant; edge_node_id = node; last_cursor = cursor } ∷ []
upsert_sync_cursor tenant node cursor (c ∷ cs) =
    let rest = upsert_sync_cursor tenant node cursor cs in
    if str_eq c.tenant_id tenant && str_eq c.edge_node_id node
    then record c { last_cursor = max c.last_cursor cursor } ∷ cs
    else c ∷ rest

-- The cursor of a node, or 0.
abbrev pub cursor_of : String → String → List SyncCursor → ℕ
cursor_of tenant node [] = 0
cursor_of tenant node (c ∷ cs) =
    let rest = cursor_of tenant node cs in
    if str_eq c.tenant_id tenant && str_eq c.edge_node_id node then c.last_cursor else rest

-- A confirmation raises the cursor of its node to the greater of the two and leaves the cursor of
-- every other node: a late confirmation of an older cursor is without effect.
cursor_of-upsert_sync_cursor :
    (t n : String) (cursor : ℕ) (t' n' : String) (cs : List SyncCursor)
    → cursor_of t' n' (upsert_sync_cursor t n cursor cs)
      ≡ (if str_eq t t' && str_eq n n' then max (cursor_of t' n' cs) cursor else cursor_of t' n' cs)
unfolding upsert_sync_cursor
cursor_of-upsert_sync_cursor t n cursor t' n' [] = ground arith
cursor_of-upsert_sync_cursor t n cursor t' n' (c ∷ cs) = ground (
  arith,
  cursor_of-upsert_sync_cursor t n cursor t' n' cs,
  eq_iff c.tenant_id t,
  eq_iff c.tenant_id t',
  eq_iff t t',
  eq_iff c.edge_node_id n,
  eq_iff c.edge_node_id n',
  eq_iff n n',
)

is_of_key-new :
    (fresh tenant key : String)
    → is_of_key tenant key (record { id = fresh; tenant_id = tenant; api_key_id = key }) ≡ true
is_of_key-new fresh tenant key = rw (eq_refl tenant, eq_refl key) refl

abbrev made : String → String → String → EdgeNode
made fresh tenant key = record { id = fresh; tenant_id = tenant; api_key_id = key }

resolve_new :
    (fresh later tenant key : String) (nodes : List EdgeNode)
    → find (is_of_key tenant key) nodes ≡ none
    → resolve_edge_node_for_api_key later tenant key
        (resolve_edge_node_for_api_key fresh tenant key nodes).1
      ≡ resolve_edge_node_for_api_key fresh tenant key nodes
unfolding resolve_edge_node_for_api_key
resolve_new fresh later tenant key nodes e = first ∙ sym there
  where
    grown : List EdgeNode
    grown = nodes ++ (made fresh tenant key ∷ [])

    there : resolve_edge_node_for_api_key fresh tenant key nodes ≡ (fresh, grown)
    there = rw (e, resolve_edge_node_for_api_key) refl

    found : find (is_of_key tenant key) grown ≡ some (made fresh tenant key)
    found =
        find-append (is_of_key tenant key) nodes (made fresh tenant key) e
          (is_of_key-new fresh tenant key)

    again : resolve_edge_node_for_api_key later tenant key grown ≡ (fresh, grown)
    again = rw (found, resolve_edge_node_for_api_key) refl

    first :
        resolve_edge_node_for_api_key later tenant key
          (resolve_edge_node_for_api_key fresh tenant key nodes).1
        ≡ (fresh, grown)
    first = ap (λ r. resolve_edge_node_for_api_key later tenant key r.1) there ∙ again

resolve_found :
    (fresh tenant key : String) (nodes : List EdgeNode) (n : EdgeNode)
    → find (is_of_key tenant key) nodes ≡ some n
    → resolve_edge_node_for_api_key fresh tenant key nodes ≡ (n.id, nodes)
unfolding resolve_edge_node_for_api_key
resolve_found fresh tenant key nodes n e = rw (e, resolve_edge_node_for_api_key) refl

-- A key keeps its node: the second look-up finds the node of the first and changes nothing.
resolve_edge_node_twice :
    (fresh later tenant key : String) (nodes : List EdgeNode)
    → resolve_edge_node_for_api_key later tenant key
        (resolve_edge_node_for_api_key fresh tenant key nodes).1
      ≡ resolve_edge_node_for_api_key fresh tenant key nodes
unfolding resolve_edge_node_for_api_key
resolve_edge_node_twice fresh later tenant key nodes =
    elim (Option-cases (find (is_of_key tenant key) nodes)) [
      | inr (n, e) ↦
          let settled : (f : String)
              → resolve_edge_node_for_api_key f tenant key nodes ≡ (n.id, nodes) =
            λ later'. resolve_found later' tenant key nodes n e in
          ap (λ r. resolve_edge_node_for_api_key later tenant key r.1) (settled fresh)
          ∙ (settled later ∙ sym (settled fresh))
      | inl e ↦ resolve_new fresh later tenant key nodes e
    ]
