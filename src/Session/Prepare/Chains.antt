-- ===== src/Session/Prepare/Chains.antt =====
-- `Prepare` as a whole: the entry that it chains to and the input that it sends behind it.
use mathlib.Core.Path.{subst}
use realy_code.Common.{
  ℕ, ◌-◌, ◌<◌, String, true, not, ◌&&◌, ◌||◌, Option, none, some, List, [], ◌∷◌, ◌≡◌, ◌≢◌, refl, ap,
  ◌∙◌, ◌⊎◌, inl, inr, arith, str_eq, str_eq_iff, ◌==◌, ltb, all_of, length, Bool-cases,
  Option-cases,
}
use realy_code.Transcript.Message.{Message}
use realy_code.Transcript.Repair.{is_user}
use realy_code.Session.Entry.{Entry, Lookup, Scope, in_scope, appended_user_tail}
use realy_code.Session.Store.{Store, Holds, here, there, prune}
use realy_code.Session.Prepare.{
  Request, Hashing, ok, Match, matched, unmatched, match_prefix, hash_string, hash_tools,
  hash_prefixes, better_of, better_appended, best_appended, find_appended_user_tail, prefix_key,
  scope_of, bare_lookup, chained, finish_match, finish_search, search_store, last_of,
  prepare_messages, prepare,
}
use realy_code.Session.Prepare.Sound.{match_prefix-Covers}

length_pred : (ms : List Message) → ms ≢ [] → length ms - 1 < length ms
length_pred [] ne = absurd (ne refl)
length_pred (m ∷ ms) ne = omega arith

module _ (h : Hashing) where
  -- the last message is that of the entry with blocks added, which are the tail
  pub record Extends (scope : Scope) (parent : String) (n : ℕ) (last : Message) (e : Entry)
      (tail : Message) : Type 0 where
    pub scoped : in_scope scope e ≡ true
    pub same_count : e.message_count ≡ n
    pub same_parent : e.parent_key ≡ parent
    pub appended : appended_user_tail h.same_block e.last_message last ≡ some tail

  module _ (scope : Scope) (parent : String) (n : ℕ) (last : Message) where
    better_of-eq :
        (best : Option (String × Entry × Message)) (j k : String) (x e : Entry) (o : Option Message)
        (tail : Message)
        → better_of h best j x o ≡ some (k, e, tail)
        → (best ≡ some (k, e, tail)) ⊎ ((j ≡ k) × (x ≡ e) × (o ≡ some tail))
    unfolding better_of
    better_of-eq best j k x e none tail q = inl q
    better_of-eq none j k x e (some t) tail q = inr (ground arith)
    better_of-eq (some (k', e', t')) j k x e (some t) tail q =
        elim (Bool-cases (ltb e'.last_used x.last_used)) [
          | inl newer ↦ inr (ground arith)
          | inr older ↦ inl (ground arith)
        ]

    better_appended-Extends :
        (best : Option (String × Entry × Message)) (j k : String) (x e : Entry) (tail : Message)
        (es : List (String × Entry))
        → better_appended h scope parent n last best j x ≡ some (k, e, tail)
        → (best ≡ some (k, e, tail))
          ⊎ (Holds k e ((j, x) ∷ es) × Extends scope parent n last e tail)
    unfolding better_appended
    better_appended-Extends best j k x e tail es q =
        elim (Bool-cases (
          not (in_scope scope x)
          || not (x.message_count == n)
          || not (str_eq x.parent_key parent))) [
            | inl out ↦ inl (ground arith)
            | inr fits ↦
                elim (better_of-eq best j k x e
                  (appended_user_tail h.same_block x.last_message last) tail (ground arith)) [
                    | inl before ↦ inl before
                    | inr (j_same, x_same, appended) ↦ inr (
                        rw (← j_same) (
                          rw (← x_same) (
                            here,
                            record {
                              scoped = ground arith;
                              same_count = ground arith;
                              same_parent = ground (arith, str_eq_iff x.parent_key parent);
                              appended = appended;
                            },
                          )))
                  ]
          ]

    best_appended-Extends :
        (es : List (String × Entry)) (best : Option (String × Entry × Message)) (k : String)
        (e : Entry) (tail : Message)
        → best_appended h scope parent n last best es ≡ some (k, e, tail)
        → (best ≡ some (k, e, tail)) ⊎ (Holds k e es × Extends scope parent n last e tail)
    unfolding best_appended
    best_appended-Extends [] best k e tail q = inl q
    best_appended-Extends ((j, x) ∷ es) best k e tail q =
        elim (best_appended-Extends es _ k e tail q) [
          | inr (held, fits) ↦ inr (there held, fits)
          | inl first ↦ better_appended-Extends best j k x e tail es first
        ]

  abbrev pub SameScope : Scope → Entry → Type 0
  SameScope s e =
      (e.provider ≡ s.provider)
      × (e.upstream_model ≡ s.upstream_model)
      × (e.session_id ≡ s.session_id)
      × (e.tools_hash ≡ s.tools_hash)
      × (e.instructions_hash ≡ s.instructions_hash)

  in_scope-SameScope : (s : Scope) (e : Entry) → in_scope s e ≡ true → SameScope s e
  unfolding in_scope
  in_scope-SameScope s e q = (
    (str_eq_iff e.provider s.provider).0 (ground arith),
    (str_eq_iff e.upstream_model s.upstream_model).0 (ground arith),
    (str_eq_iff e.session_id s.session_id).0 (ground arith),
    (str_eq_iff e.tools_hash s.tools_hash).0 (ground arith),
    (str_eq_iff e.instructions_hash s.instructions_hash).0 (ground arith),
  )

  -- What a lookup that chains has found in the entries `es` that it searched: an entry of the same
  -- provider, model, conversation, tools and instructions, for which new input of the user only is
  -- sent, at least one message of it. Nothing is said of a full replay.
  pub record Reuses (scope : Scope) (es : List (String × Entry)) (now : ℕ) (l : Lookup)
      (key : String) (e : Entry) : Type 0 where
    pub before : Entry
    pub held : Holds key before es
    pub used_now : e ≡ record before { last_used = now }
    pub scoped : SameScope scope before
    pub only_user : all_of is_user l.tail ≡ true
    pub some_user : l.tail ≢ []
    pub no_reason : l.full_replay_reason ≡ ""

  appended_role :
      (previous current tail : Message)
      → appended_user_tail h.same_block previous current ≡ some tail
      → tail.role ≡ "user"
  unfolding appended_user_tail
  appended_role previous current tail q = ground arith

  find_appended-Extends :
      (scope : Scope) (parent : String) (n : ℕ) (last : Message) (es : List (String × Entry))
      (k : String) (e : Entry) (tail : Message)
      → find_appended_user_tail h scope parent n last es ≡ some (k, e, tail)
      → Holds k e es × Extends scope parent n last e tail
  unfolding find_appended_user_tail
  find_appended-Extends scope parent n last es k e tail q =
      elim (Bool-cases (not (is_user last) || (str_eq scope.session_id "" && str_eq parent ""))) [
        | inl refused ↦ absurd (ground arith)
        | inr searched ↦
            elim (best_appended-Extends scope parent n last es none k e tail (ground arith)) [
              | inl before ↦ absurd (cc)
              | inr found ↦ found
            ]
      ]

  module _ (scope : Scope) (prefixes : List String) (ms : List Message) (l₀ : Lookup) (s : Store)
      (now : ℕ) where
    chained-Reuses :
        (k key : String) (x e : Entry) (tail : List Message) (reason : String)
        → Holds k x s.entries
        → in_scope scope x ≡ true
        → all_of is_user tail ≡ true
        → tail ≢ []
        → reason ≡ ""
        → (chained h l₀ s k x tail reason now).0.chain ≡ some (key, e)
        → Reuses scope s.entries now (chained h l₀ s k x tail reason now).0 key e
    chained-Reuses k key x e tail reason held scoped users ne empty q =
        let key_same : k ≡ key = ground arith in
        record {
          before = x;
          held = rw (← key_same) held;
          used_now = ground arith;
          scoped = in_scope-SameScope scope x scoped;
          only_user = users;
          some_user = ne;
          no_reason = empty;
        }

    finish_match-Reuses :
        (m : Match) (key : String) (e : Entry)
        → ms ≢ []
        → l₀.chain ≡ none
        → match_prefix scope (prefix_key h scope prefixes) s.entries ms (length ms - 1) "" ≡ m
        → (finish_match h l₀ s now m).0.chain ≡ some (key, e)
        → Reuses scope s.entries now (finish_match h l₀ s now m).0 key e
    finish_match-Reuses (unmatched r) key e ne bare matching q = absurd (cc (bare, q))
    finish_match-Reuses (matched k x tail r) key e ne bare matching q =
        let (empty, c) =
          match_prefix-Covers scope (prefix_key h scope prefixes) s.entries ms (length ms - 1) "" k
            r x tail (length_pred ms ne) (inl refl) matching in
        chained-Reuses k key x e tail r c.held c.scoped c.behind.only_user c.behind.some_user empty
          q

    finish_search-Reuses :
        (o : Option (String × Entry × Message)) (key : String) (e : Entry) (parent : String) (n : ℕ)
        (last : Message)
        → ms ≢ []
        → l₀.chain ≡ none
        → find_appended_user_tail h scope parent n last s.entries ≡ o
        → (finish_search h scope prefixes ms l₀ s now o).0.chain ≡ some (key, e)
        → Reuses scope s.entries now (finish_search h scope prefixes ms l₀ s now o).0 key e
    finish_search-Reuses (some (k, x, tail)) key e parent n last ne bare found q =
        let (held, fits) = find_appended-Extends scope parent n last s.entries k x tail found in
        chained-Reuses k key x e (tail ∷ []) "" held fits.scoped
          (rw (appended_role x.last_message last tail fits.appended)) (λ z. cc) refl q
    finish_search-Reuses none key e parent n last ne bare found q =
        finish_match-Reuses _ key e ne bare refl q

  -- the scope of a request: its provider, model and conversation, and the hashes of its tools and of
  -- its instructions
  pub record IsScope (provider model : String) (req : Request) (scope : Scope) : Type 0 where
    pub instructions : String
    pub provider_is : scope.provider ≡ provider
    pub model_is : scope.upstream_model ≡ model
    pub session_is : scope.session_id ≡ req.session_id
    pub tools_are : hash_tools h req ≡ some scope.tools_hash
    pub system_is : h.system_text req.system ≡ some instructions
    pub instructions_are : scope.instructions_hash ≡ hash_string h instructions

  -- what `prepare` has done where it returns a lookup
  record Prepared (provider model : String) (req : Request) (s : Store) (now later : ℕ)
      (r : Lookup × Store) : Type 0 where
    scope : Scope
    prefixes : List String
    is_scope : IsScope provider model req scope
    first : Message
    others : List Message
    searched :
        search_store h scope prefixes (first ∷ others) (last_of first others) (prune now s) later
        ≡ r

  prepare_messages-eq :
      (scope : Scope) (prefixes : List String) (ms : List Message) (s : Store) (now later : ℕ)
      (r : Lookup × Store)
      → prepare_messages h scope prefixes ms s now later ≡ ok r
      → (m : Message) × (others : List Message) × (search_store h scope prefixes
            (m ∷ others)
            (last_of m others)
            (prune now s)
            later
          ≡ r)
  prepare_messages-eq scope prefixes [] s now later r q = absurd (cc)
  prepare_messages-eq scope prefixes (m ∷ ms) s now later r q = (m, ms, cc)

  prepare-Prepared :
      (provider model : String) (req : Request) (s : Store) (now later : ℕ) (r : Lookup × Store)
      → prepare h provider model req s now later ≡ ok r
      → Prepared provider model req s now later r
  unfolding prepare
  prepare-Prepared provider model req s now later r q =
      elim (Option-cases (h.system_text req.system)) [
        | inl bad ↦ absurd (ground arith)
        | inr (instr, a) ↦ elim (Option-cases (hash_tools h req)) [
          | inl bad ↦ absurd (ground arith)
          | inr (tools, b) ↦ elim (Option-cases (hash_prefixes h [] req.messages)) [
            | inl bad ↦ absurd (ground arith)
            | inr (prefixes, c) ↦
                let scope = scope_of h provider model req (hash_string h instr) tools in
                let (m, ms, searched) =
                  prepare_messages-eq scope prefixes req.messages s now later r (ground arith) in
                record {
                  scope = scope;
                  prefixes = prefixes;
                  is_scope = record {
                    instructions = instr;
                    provider_is = refl;
                    model_is = refl;
                    session_is = refl;
                    tools_are = b;
                    system_is = a;
                    instructions_are = refl;
                  };
                  first = m;
                  others = ms;
                  searched = searched;
                }
          ]
        ]
      ]

  search_store-Reuses :
      (scope : Scope) (prefixes : List String) (m : Message) (ms : List Message) (last : Message)
      (s : Store) (now : ℕ) (key : String) (e : Entry)
      → (search_store h scope prefixes (m ∷ ms) last s now).0.chain ≡ some (key, e)
      → Reuses scope s.entries now (search_store h scope prefixes (m ∷ ms) last s now).0 key e
  unfolding search_store
  search_store-Reuses scope prefixes m ms last s now key e q =
      let l = bare_lookup h scope prefixes (length (m ∷ ms)) last in
      finish_search-Reuses scope prefixes (m ∷ ms) l s now
        (find_appended_user_tail h scope l.new_parent_key (length (m ∷ ms)) last s.entries) key e
        l.new_parent_key (length (m ∷ ms)) last (λ z. cc) refl refl q

  -- Where `Prepare` chains, it chains to an entry that was in the store and not expired, of the
  -- request's provider, model, conversation, tools and instructions; the input that it sends is not
  -- empty and holds messages of the user only; the entry counts as used now; and no reason for a full
  -- replay is left in the lookup.
  pub prepare-Reuses :
      (provider model : String) (req : Request) (s s' : Store) (now later : ℕ) (l : Lookup)
      (key : String) (e : Entry)
      → prepare h provider model req s now later ≡ ok (l, s')
      → l.chain ≡ some (key, e)
      → (scope : Scope) × IsScope provider model req scope
        × Reuses scope (prune now s).entries later l key e
  prepare-Reuses provider model req s s' now later l key e q chain_is =
      let p = prepare-Prepared provider model req s now later (l, s') q in
      let same = ap (λ (r : Lookup × Store). r.0) p.searched in
      (
        p.scope,
        p.is_scope,
        subst (λ (l : Lookup). Reuses p.scope (prune now s).entries later l key e) same
            (search_store-Reuses p.scope p.prefixes p.first p.others _ (prune now s) later key e
              (ap (λ (l : Lookup). l.chain) same ∙ chain_is)),
      )
