-- ===== src/Urls/Paths.antt =====
-- The endpoints that jobs/urls.py documents, and the routes that serve them.
use mt_jobs.Base.{
  ℕ, String, some, List, [], ◌∷◌, ◌≡◌, ◌⊎◌, ◌↔◌, inl, inr, refl, ap, sym, ◌∙◌, str_eq, eq_iff,
  Bool-cases, Option-cases, arith,
}
use mt_jobs.Urls.{
  Converter, View, Part, lit, uuid, Route, match, resolve, urlpatterns, jobs_urlpatterns,
  tenants_urlpatterns,
}

-- What a client may ask for.
pub data Endpoint : Type 0 where
  jobs dead_letters tenants : Endpoint
  job attempts cancel dead_letter replay tenant : ℕ → Endpoint

-- The path of an endpoint.
unfoldable pub url : Converter → Endpoint → List String
url c Endpoint.jobs = "jobs" ∷ "" ∷ []
url c (Endpoint.job i) = "jobs" ∷ c.to_url i ∷ "" ∷ []
url c (Endpoint.attempts i) = "jobs" ∷ c.to_url i ∷ "attempts" ∷ "" ∷ []
url c (Endpoint.cancel i) = "jobs" ∷ c.to_url i ∷ "cancel" ∷ "" ∷ []
url c Endpoint.dead_letters = "dead-letters" ∷ "" ∷ []
url c (Endpoint.dead_letter i) = "dead-letters" ∷ c.to_url i ∷ "" ∷ []
url c (Endpoint.replay i) = "dead-letters" ∷ c.to_url i ∷ "replay" ∷ "" ∷ []
url c Endpoint.tenants = "tenants" ∷ "" ∷ []
url c (Endpoint.tenant i) = "tenants" ∷ c.to_url i ∷ "" ∷ []

-- The view of an endpoint, and the ids that it is called with.
unfoldable pub target : Endpoint → View × List ℕ
target Endpoint.jobs = (View.job_list_create, [])
target (Endpoint.job i) = (View.job_detail, i ∷ [])
target (Endpoint.attempts i) = (View.job_attempt_list, i ∷ [])
target (Endpoint.cancel i) = (View.job_cancel, i ∷ [])
target Endpoint.dead_letters = (View.dead_letter_list, [])
target (Endpoint.dead_letter i) = (View.dead_letter_detail, i ∷ [])
target (Endpoint.replay i) = (View.dead_letter_replay, i ∷ [])
target Endpoint.tenants = (View.tenant_list_create, [])
target (Endpoint.tenant i) = (View.tenant_detail, i ∷ [])

module _ (c : Converter) (reads : (i : ℕ) → c.to_python (c.to_url i) ≡ some i)
    (only : (s : String) (i : ℕ) → c.to_python s ≡ some i → s ≡ c.to_url i) where
  url-resolve : (e : Endpoint) → resolve c urlpatterns (url c e) ≡ some (target e)
  unfolding resolve urlpatterns jobs_urlpatterns tenants_urlpatterns match url target
  url-resolve Endpoint.jobs = refl
  url-resolve (Endpoint.job i) = ground (arith, reads i)
  url-resolve (Endpoint.attempts i) = ground (arith, reads i)
  url-resolve (Endpoint.cancel i) = ground (arith, reads i)
  url-resolve Endpoint.dead_letters = refl
  url-resolve (Endpoint.dead_letter i) = ground (arith, reads i)
  url-resolve (Endpoint.replay i) = ground (arith, reads i)
  url-resolve Endpoint.tenants = refl
  url-resolve (Endpoint.tenant i) = ground (arith, reads i)

  -- A path fits a pattern by its literals and the ids that it captures.
  abbrev Fits : List Part → List String → List ℕ → Type 0
  Fits [] p ids = (p ≡ []) × (ids ≡ [])
  Fits (lit t ∷ ps) p ids = (rest : List String) × (p ≡ t ∷ rest) × Fits ps rest ids
  Fits (uuid ∷ ps) p ids =
      (i : ℕ) × (is : List ℕ) × (rest : List String) × (ids ≡ i ∷ is)
      × (p ≡ c.to_url i ∷ rest)
      × Fits ps rest is

  match-Fits :
      (ps : List Part) (p : List String) (ids : List ℕ) → match c ps p ≡ some ids → Fits ps p ids
  unfolding match
  match-Fits [] [] ids h = (refl, cc h)
  match-Fits [] (s ∷ rest) ids h = cc h
  match-Fits (lit t ∷ ps) [] ids h = cc h
  match-Fits (uuid ∷ ps) [] ids h = cc h
  match-Fits (lit t ∷ ps) (s ∷ rest) ids h = elim (Bool-cases (str_eq t s)) [
    | inl e ↦ (
      rest,
      ap (λ (x : String). x ∷ rest) (sym ((eq_iff t s).0 e)),
      match-Fits ps rest ids (ground (arith, e, h)),
    )
    | inr e ↦ absurd (ground (arith, e, h))
  ]
  match-Fits (uuid ∷ ps) (s ∷ rest) ids h = elim (Option-cases (c.to_python s)) [
    | inl e ↦ absurd (ground (arith, e, h))
    | inr (i, e) ↦ elim (Option-cases (match c ps rest)) [
      | inl f ↦ absurd (ground (arith, e, f, h))
      | inr (is, f) ↦ (
        i,
        is,
        rest,
        ground (arith, e, f, h),
        ap (λ (x : String). x ∷ rest) (only s i e),
        match-Fits ps rest is f,
      )
    ]
  ]

  -- Some route of the list fits.
  abbrev Serves : List Route → List String → View × List ℕ → Type 0
  Serves [] p t = ⊥
  Serves (r ∷ rs) p t = ((t.0 ≡ r.view) × Fits r.pattern p t.1) ⊎ Serves rs p t

  resolve-Serves :
      (rs : List Route) (p : List String) (t : View × List ℕ)
      → resolve c rs p ≡ some t
      → Serves rs p t
  unfolding resolve
  resolve-Serves [] p t h = cc h
  resolve-Serves (r ∷ rs) p t h = elim (Option-cases (match c r.pattern p)) [
    | inl e ↦ inr (resolve-Serves rs p t (ground (arith, e, h)))
    | inr (ids, e) ↦
        let q : (r.view, ids) ≡ t = ground (arith, e, h) in
        inl (
          sym (ap (λ (x : View × List ℕ). x.0) q),
          match-Fits r.pattern p t.1 (ground (arith, e, q)),
        )
  ]

  split_list :
      (a b : String) (p : List String) (ids : List ℕ)
      → Fits (lit a ∷ lit b ∷ []) p ids
      → (p ≡ a ∷ b ∷ []) × (ids ≡ [])
  split_list a b p ids (r, e, (r', e', (f, g))) = (cc, g)

  split_detail :
      (a b : String) (p : List String) (ids : List ℕ)
      → Fits (lit a ∷ uuid ∷ lit b ∷ []) p ids
      → (i : ℕ) × (p ≡ a ∷ c.to_url i ∷ b ∷ []) × (ids ≡ i ∷ [])
  split_detail a b p ids (r, e, (i, is, q, x, y, (r', e', (f, g)))) = (i, cc, cc)

  split_action :
      (a b d : String) (p : List String) (ids : List ℕ)
      → Fits (lit a ∷ uuid ∷ lit b ∷ lit d ∷ []) p ids
      → (i : ℕ) × (p ≡ a ∷ c.to_url i ∷ b ∷ d ∷ []) × (ids ≡ i ∷ [])
  split_action a b d p ids (r, e, (i, is, q, x, y, (r', e', (r'', e'', (f, g))))) = (i, cc, cc)

  resolve-url :
      (p : List String) (t : View × List ℕ)
      → resolve c urlpatterns p ≡ some t
      → (e : Endpoint) × (p ≡ url c e) × (target e ≡ t)
  unfolding urlpatterns jobs_urlpatterns tenants_urlpatterns url target
  resolve-url p (v, ids) h = elim (resolve-Serves urlpatterns p (v, ids) h) [
    | inl (w, fits) ↦ let (x, y) = split_list _ _ p ids fits in (Endpoint.jobs, x, ground arith)
    | inr (inl (w, fits)) ↦
        let (i, x, y) = split_detail _ _ p ids fits in (Endpoint.job i, x, ground arith)
    | inr (inr (inl (w, fits))) ↦
        let (i, x, y) = split_action _ _ _ p ids fits in (Endpoint.attempts i, x, ground arith)
    | inr (inr (inr (inl (w, fits)))) ↦
        let (i, x, y) = split_action _ _ _ p ids fits in (Endpoint.cancel i, x, ground arith)
    | inr (inr (inr (inr (inl (w, fits))))) ↦
        let (x, y) = split_list _ _ p ids fits in (Endpoint.dead_letters, x, ground arith)
    | inr (inr (inr (inr (inr (inl (w, fits)))))) ↦
        let (i, x, y) = split_detail _ _ p ids fits in (Endpoint.dead_letter i, x, ground arith)
    | inr (inr (inr (inr (inr (inr (inl (w, fits))))))) ↦
        let (i, x, y) = split_action _ _ _ p ids fits in (Endpoint.replay i, x, ground arith)
    | inr (inr (inr (inr (inr (inr (inr (inl (w, fits)))))))) ↦
        let (x, y) = split_list _ _ p ids fits in (Endpoint.tenants, x, ground arith)
    | inr (inr (inr (inr (inr (inr (inr (inr (inl (w, fits))))))))) ↦
        let (i, x, y) = split_detail _ _ p ids fits in (Endpoint.tenant i, x, ground arith)
    | inr (inr (inr (inr (inr (inr (inr (inr (inr missed)))))))) ↦ absurd missed
  ]

  -- Where the converter `uuid` reads exactly the texts that it writes, a path resolves to a view
  -- with its ids if and only if it is the URL of an endpoint which that view serves with those
  -- ids: every endpoint is served, by one view, and no other path is.
  pub resolve_iff :
      (p : List String) (t : View × List ℕ)
      → (resolve c urlpatterns p ≡ some t) ↔ ((e : Endpoint) × (p ≡ url c e) × (target e ≡ t))
  resolve_iff p t = (resolve-url p t, λ (e, x, y). rw x (url-resolve e ∙ ap some y))
