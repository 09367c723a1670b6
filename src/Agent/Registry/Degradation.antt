-- ===== src/Agent/Registry/Degradation.antt =====
-- agent/discovery.py: a server that fails takes its own tools with it and no others.
use mcp_text_to_sql_agent.Prelude.{
  String, Bool, true, false, ◌||◌, Option, none, some, List, [], ◌∷◌, lookup, assign_key, contains,
  any, ◌==◌, eq_iff, eq_refl, if◌then◌else◌, ◌≡◌, inl, inr, refl, sym, ◌∙◌, ap, Bool-cases, arith,
  lookup-assign_key_same, lookup-assign_key_other, subst,
}
use mcp_text_to_sql_agent.Agent.Registry.{
  Listed, Launched, not_started, not_listed, listed, DiscoveredTool, Registry, new_registry,
  discovered, add_tools, connect_one, connect, call, call_on,
}

abbrev pub or_else : Option String → Option String → Option String
or_else (some s) other = some s
or_else none other = other

-- The sessions have the server, if there is one.
abbrev IsKept : List String → Option String → Type 0
IsKept sessions none = Unit
IsKept sessions (some s) = contains s sessions ≡ true

IsKept-more :
    (s : String) (sessions : List String) (o : Option String)
    → IsKept sessions o
    → IsKept (s ∷ sessions) o
IsKept-more s sessions none h = tt
IsKept-more s sessions (some t) h = ground (arith, h)

IsKept-self : (s : String) (sessions : List String) → IsKept (s ∷ sessions) (some s)
IsKept-self s sessions = rw eq_refl refl

-- What it answers, or none if there is no such server.
abbrev pub asked : {A : Type 0} → (String → A) → Option String → Option A
asked ask none = none
asked ask (some server) = some (ask server)

both_same : (b : Bool) (m : String) → (if b then some m else some m) ≡ some m
both_same true m = refl
both_same false m = refl

or_else_assoc : (a b c : Option String) → or_else a (or_else b c) ≡ or_else (or_else a b) c
or_else_assoc none b c = refl
or_else_assoc (some x) b c = refl

or_else-none : (o : Option String) → or_else o none ≡ o
or_else-none none = refl
or_else-none (some s) = refl

module _ {Schema : Type 0} where
  -- Whether a server that was launched lists a tool of this name.
  abbrev pub lists : String → Launched Schema → Bool
  lists name (not_started exception) = false
  lists name (not_listed exception) = false
  lists name (listed tools) = any (λ t. t.name == name) tools

  -- The last of the servers that lists a tool of this name.
  abbrev pub last_listing : (String → Launched Schema) → String → List String → Option String
  last_listing launch name [] = none
  last_listing launch name (m ∷ modules) =
      or_else (last_listing launch name modules) (if lists name (launch m) then some m else none)

  abbrev server_of : Option (DiscoveredTool Schema) → Option String
  server_of none = none
  server_of (some tool) = some tool.server

  -- A call of this name goes to this server, which has a session.
  abbrev Serves : String → Registry Schema → Option String → Type 0
  Serves name r o = (server_of (lookup name r.tools) ≡ o) × IsKept r.sessions o

  server_of-add_tools :
      (name m : String) (tools : List (Listed Schema))
      (known : List (String × DiscoveredTool Schema))
      → server_of (lookup name (add_tools m tools known))
        ≡ (if any (λ t. t.name == name) tools then some m else server_of (lookup name known))
  unfolding add_tools
  server_of-add_tools name m [] known = refl
  server_of-add_tools name m (t ∷ rest) known =
      server_of-add_tools name m rest (assign_key t.name (discovered m t) known)
      ∙ elim (Bool-cases (t.name == name)) [
        | inl e ↦ same_name e
        | inr e ↦
            ap (λ o. if any (λ u. u.name == name) rest then some m else server_of o)
              (lookup-assign_key_other t.name name (discovered m t) known e)
            ∙ sym (
                ap
                  (λ b.
                    if b || any (λ u. u.name == name) rest
                    then some m
                    else server_of (lookup name known))
                  e)
      ]
    where
      same_name :
          (t.name == name) ≡ true
          → (if any (λ u. u.name == name) rest
              then some m
              else server_of (lookup name (assign_key t.name (discovered m t) known)))
            ≡ (if (t.name == name) || any (λ u. u.name == name) rest
                then some m
                else server_of (lookup name known))
      same_name e =
          ap (λ o. if any (λ u. u.name == name) rest then some m else server_of o)
            (subst
              (λ key. lookup key (assign_key t.name (discovered m t) known) ≡ some (discovered m t))
              ((eq_iff t.name name).0 e) (lookup-assign_key_same t.name (discovered m t) known))
          ∙ both_same (any (λ u. u.name == name) rest) m
          ∙ sym (
              ap
                (λ b.
                  if b || any (λ u. u.name == name) rest
                  then some m
                  else server_of (lookup name known))
                e)

  connect_one-Serves :
      (name m : String) (launched : Launched Schema) (r : Registry Schema) (o : Option String)
      → Serves name r o
      → Serves name
          (connect_one m launched r)
          (or_else (if lists name launched then some m else none) o)
  unfolding connect_one
  connect_one-Serves name m (not_started exception) r o h = h
  connect_one-Serves name m (not_listed exception) r o (same, kept) =
      (same, IsKept-more m r.sessions o kept)
  connect_one-Serves name m (listed tools) r o (same, kept) =
      elim (Bool-cases (any (λ t. t.name == name) tools)) [
        | inl e ↦ rw e (
          server_of-add_tools name m tools r.tools
              ∙ ap (λ b. if b then some m else server_of (lookup name r.tools)) e,
          IsKept-self m r.sessions,
        )
        | inr e ↦ rw e (
          server_of-add_tools name m tools r.tools
              ∙ ap (λ b. if b then some m else server_of (lookup name r.tools)) e
              ∙ same,
          IsKept-more m r.sessions o kept,
        )
      ]

  connect-Serves :
      (launch : String → Launched Schema) (name : String) (modules : List String)
      (r : Registry Schema) (o : Option String)
      → Serves name r o
      → Serves name (connect launch modules r) (or_else (last_listing launch name modules) o)
  unfolding connect
  connect-Serves launch name [] r o h = h
  connect-Serves launch name (m ∷ modules) r o h =
      subst (Serves name (connect launch modules (connect_one m (launch m) r)))
        (or_else_assoc (last_listing launch name modules)
          (if lists name (launch m) then some m else none) o)
        (connect-Serves launch name modules (connect_one m (launch m) r)
          (or_else (if lists name (launch m) then some m else none) o)
          (connect_one-Serves name m (launch m) r o h))

  call_on-asked :
      {A : Type 0} (ask : String → A) (r : Registry Schema) (found : Option (DiscoveredTool Schema))
      → IsKept r.sessions (server_of found)
      → call_on ask r found ≡ asked ask (server_of found)
  unfolding call_on
  call_on-asked ask r none kept = refl
  call_on-asked ask r (some tool) kept = rw kept refl

  -- However the configured servers start or fail: a call of a tool is answered by the last of them
  -- that lists a tool of this name, and it is a `KeyError` only if there is none.
  pub call-connect :
      {A : Type 0} (ask : String → A) (launch : String → Launched Schema) (modules : List String)
      (name : String)
      → call ask (connect launch modules new_registry) name
        ≡ asked ask (last_listing launch name modules)
  unfolding call
  call-connect ask launch modules name =
      let (same, kept) = connect-Serves launch name modules new_registry none (refl, tt) in
      call_on-asked ask (connect launch modules new_registry)
        (lookup name (connect launch modules new_registry).tools)
        (subst (IsKept (connect launch modules new_registry).sessions) (sym same) kept)
      ∙ ap (asked ask) (same ∙ or_else-none (last_listing launch name modules))
