-- ===== src/Attach/Choice/Chosen.antt =====
-- relay/cmd/httpssh-relay/attach.go: what `resolveSessionID` may return.
use httpssh.Base.{
  ℕ, zero, suc, ◌≡◌, ◌≢◌, ◌⊎◌, inl, inr, refl, subst, sym, ap, ◌∙◌, Bool, true, false, false≢true,
  not, if_cases, Option, none, some, List, [], ◌∷◌, ℤ, pos, negsuc, if◌then◌else◌, get_elem?, Text,
  str_eq, str_eq_iff,
}
use httpssh.Session.{SessionInfo}
use httpssh.Attach.{UrlLibrary, AttachOpts, Attempt, done, gave_up}
use httpssh.Attach.Client.{ClientRequest, Exchange, list_sessions, fetch_session, create_session}
use httpssh.Attach.Choice.{
  Input, read_choice_line, atoi, candidates, nth, picked, picked_one, wants_new, chosen, choose,
  among_listed, named, resolve_session_id,
}

abbrev pub Member : SessionInfo → List SessionInfo → Type 0
Member i [] = ⊥
Member i (x ∷ xs) = (i ≡ x) ⊎ Member i xs

-- A candidate is a session of the list that no host is attached to.
Member-candidates :
    (i : SessionInfo) (is : List SessionInfo)
    → Member i (candidates is)
    → Member i is × (i.host_attached ≡ false)
unfolding candidates
Member-candidates i [] h = absurd h
Member-candidates i (x ∷ is) h = by_flag x.host_attached refl h (Member-candidates i is)
  where
    by_flag :
        (b : Bool)
        → x.host_attached ≡ b
        → Member i (if not b then x ∷ candidates is else candidates is)
        → (Member i (candidates is) → Member i is × (i.host_attached ≡ false))
        → Member i (x ∷ is) × (i.host_attached ≡ false)
    by_flag true e h rest = let (m, f) = rest h in (inr m, f)
    by_flag false e (inl h) rest = (inl h, ap (λ (y : SessionInfo). y.host_attached) h ∙ e)
    by_flag false e (inr h) rest = let (m, f) = rest h in (inr m, f)

get_elem?-Member :
    (is : List SessionInfo) (n : ℕ) (i : SessionInfo) → get_elem? is n ≡ some i → Member i is
get_elem?-Member [] n i h = cc
get_elem?-Member (x ∷ is) zero i h = inl cc
get_elem?-Member (x ∷ is) (suc n) i h = inr (get_elem?-Member is n i h)

nth-Member : (cs : List SessionInfo) (z : ℤ) (i : SessionInfo) → nth cs z ≡ some i → Member i cs
nth-Member cs (negsuc n) i h = cc
nth-Member cs (pos zero) i h = cc
nth-Member cs (pos (suc n)) i h = get_elem?-Member cs n i h

picked-Member :
    (choice : Text) (o : Option ℤ) (cs : List SessionInfo) (id : Text)
    → picked choice o cs ≡ done id
    → (i : SessionInfo) × Member i cs × (id ≡ i.id)
unfolding picked
picked-Member choice none cs id h = cc
picked-Member choice (some z) cs id h = at (nth cs z) refl h
  where
    at :
        (o : Option SessionInfo)
        → nth cs z ≡ o
        → picked_one choice o ≡ done id
        → (i : SessionInfo) × Member i cs × (id ≡ i.id)
    at none e k = cc
    at (some i) e k = (i, nth-Member cs z i e, cc)

module _ {S : Type 0} (lib : UrlLibrary) (net : ClientRequest → S → S × Exchange)
    (opts : AttachOpts) (size : ℕ × ℕ) (s : S) where
  -- The session that was named and is there, or one that was just made, or one of the list that no host is
  -- attached to.
  abbrev pub IsChosen : S × Attempt Text → Type 0
  IsChosen (t, gave_up e) = Unit {0}
  IsChosen (t, done id) =
      ((opts.session_id ≢ [])
        × (id ≡ opts.session_id)
        × ((i : SessionInfo) × (fetch_session lib net opts opts.session_id s ≡ (t, done i))))
      ⊎ ((u : S) × ((u ≡ s)
            ⊎ ((is : List SessionInfo) × (list_sessions lib net opts s ≡ (u, done is))))
          × (create_session lib net opts size u ≡ (t, done id)))
      ⊎ ((is : List SessionInfo) × (i : SessionInfo) × (list_sessions lib net opts s ≡ (t, done is))
          × Member i is
          × (i.host_attached ≡ false)
          × (id ≡ i.id))

  created-IsChosen :
      (u : S)
      → ((u ≡ s) ⊎ ((is : List SessionInfo) × (list_sessions lib net opts s ≡ (u, done is))))
      → IsChosen (create_session lib net opts size u)
  created-IsChosen u from = by (create_session lib net opts size u) refl
    where
      by : (r : S × Attempt Text) → create_session lib net opts size u ≡ r → IsChosen r
      by (t, gave_up e) h = tt
      by (t, done id) h = inr (inl (u, from, h))

  chosen-IsChosen :
      (a : Attempt Text) (is : List SessionInfo) (u : S)
      → list_sessions lib net opts s ≡ (u, done is)
      → IsChosen (chosen lib net opts size a (candidates is) u)
  unfolding chosen
  chosen-IsChosen (gave_up e) is u h = tt
  chosen-IsChosen (done choice) is u h =
      if_cases IsChosen (wants_new choice) _ _ (λ _. created-IsChosen u (inr (is, h)))
        (λ _. one (picked choice (atoi choice) (candidates is)) refl)
    where
      one : (a : Attempt Text) → picked choice (atoi choice) (candidates is) ≡ a → IsChosen (u, a)
      one (gave_up e) k = tt
      one (done id) k =
          let (i, among, same) = picked-Member choice (atoi choice) (candidates is) id k in
          let (m, f) = Member-candidates i is among in inr (inr (is, i, h, m, f, same))

  listed-IsChosen :
      (input : Input) (r : S × Attempt (List SessionInfo))
      → list_sessions lib net opts s ≡ r
      → IsChosen (among_listed lib net opts size input r)
  unfolding among_listed
  listed-IsChosen input (u, gave_up e) h = tt
  listed-IsChosen input (u, done is) h = some_or_none (candidates is) refl
    where
      some_or_none :
          (cs : List SessionInfo)
          → candidates is ≡ cs
          → IsChosen (choose lib net opts size input cs u)
      some_or_none [] e = unfold choose in created-IsChosen u (inr (is, h))
      some_or_none (c ∷ cs) e =
          unfold choose in
          subst (λ ds. IsChosen (chosen lib net opts size (read_choice_line input) ds u)) e
            (chosen-IsChosen (read_choice_line input) is u h)

  named-IsChosen :
      (r : S × Attempt SessionInfo)
      → opts.session_id ≢ []
      → fetch_session lib net opts opts.session_id s ≡ r
      → IsChosen (named lib net opts size r)
  unfolding named
  named-IsChosen (t, gave_up e) ne h = tt
  named-IsChosen (t, done i) ne h = inl (ne, refl, (i, h))

  -- The session that the client joins is the one that the flag names, if the relay has it; or one that the
  -- relay has just made; or one that the relay has listed with no host attached.
  pub resolve_session_id-IsChosen :
      (input : Input) → IsChosen (resolve_session_id lib net opts size input s)
  unfolding resolve_session_id
  resolve_session_id-IsChosen input =
      if_cases IsChosen (not (str_eq opts.session_id [])) _ _
        (λ n. named-IsChosen (fetch_session lib net opts opts.session_id s) (ne n) refl)
        (λ _.
          if_cases IsChosen opts.make_new _ _ (λ _. created-IsChosen s (inl refl))
            (λ _. listed-IsChosen input (list_sessions lib net opts s) refl))
    where
      ne : not (str_eq opts.session_id []) ≡ true → opts.session_id ≢ []
      ne n z = false≢true (sym (ap not ((str_eq_iff opts.session_id []).1 z)) ∙ n)
