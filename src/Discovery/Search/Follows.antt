-- ===== src/Discovery/Search/Follows.antt =====
-- The packets that a stage of the search of pkg/petlibro/discovery.go sends.
use mathlib.Core.List.{append-nil, append_assoc}
use ha_addon_petlibro_local.Prelude.{
  ℕ, ◌≡◌, refl, sym, ap, ◌∙◌, Bool, true, false, List, [], ◌∷◌, ◌++◌, arith,
}
use ha_addon_petlibro_local.Discovery.Search.{
  Stage, nothing, over, found, Env, Leg, search1, search2, knock2, Hunt, tick, ended, allow, select,
  and_then,
}

-- From `s`, with the packets `ps` planned: a stage with nothing to report has sent them all, in their
-- order, and one that ends the search the first of them; the context is done if it says so.
pub data Follows (e : Env) (ps : List (Leg × ℕ)) (s : Hunt) : Stage × Hunt → Type 0 where
  whole : {s' : Hunt} → s'.log ≡ s.log ++ ps → Follows e ps s (nothing, s')
  answered :
      {s' : Hunt} {ip : ℕ} (done rest : List (Leg × ℕ))
      → done ++ rest ≡ ps
      → s'.log ≡ s.log ++ done
      → Follows e ps s (found ip, s')
  ran_out :
      {s' : Hunt} (done rest : List (Leg × ℕ))
      → done ++ rest ≡ ps
      → s'.log ≡ s.log ++ done
      → ended e s' ≡ true
      → Follows e ps s (over, s')

unfoldable pub legs_of : ℕ → List (Leg × ℕ)
legs_of t = (search1, t) ∷ (search2, t) ∷ (knock2, t) ∷ []

unfoldable pub legs : List ℕ → List (Leg × ℕ)
unfolding legs_of
legs [] = []
legs (t ∷ ts) = legs_of t ++ legs ts

-- A log that grows twice.
pub log_trans :
    (l : List (Leg × ℕ)) {l' l'' : List (Leg × ℕ)} (ps qs : List (Leg × ℕ))
    → l' ≡ l ++ ps
    → l'' ≡ l' ++ qs
    → l'' ≡ l ++ (ps ++ qs)
log_trans l ps qs first second = second ∙ ap (λ x. x ++ qs) first ∙ append_assoc l ps qs

pub after-Follows :
    {e : Env} (ps : List (Leg × ℕ)) {qs : List (Leg × ℕ)} (s s1 : Hunt) {r : Stage × Hunt}
    → s1.log ≡ s.log ++ ps
    → Follows e qs s1 r
    → Follows e (ps ++ qs) s r
after-Follows ps s s1 l (whole l') = whole (log_trans s.log ps _ l l')
after-Follows ps s s1 l (ran_out done rest split l' end) =
    ran_out (ps ++ done) rest (append_assoc ps done rest ∙ ap (λ x. ps ++ x) split)
      (log_trans s.log ps done l l') end
after-Follows ps s s1 l (answered done rest split l') =
    answered (ps ++ done) rest (append_assoc ps done rest ∙ ap (λ x. ps ++ x) split)
      (log_trans s.log ps done l l')

pub and_then-Follows :
    {e : Env} {ps qs : List (Leg × ℕ)} {s : Hunt} {r : Stage × Hunt} (next : Hunt → Stage × Hunt)
    → Follows e ps s r
    → ((s' : Hunt) → Follows e qs s' (next s'))
    → Follows e (ps ++ qs) s (and_then r next)
unfolding and_then
and_then-Follows {ps = ps} {s = s} next (whole {s' = s'} l) k = after-Follows ps s s' l (k s')
and_then-Follows {qs = qs} next (ran_out done rest split l end) k =
    ran_out done (rest ++ qs) (sym (append_assoc done rest qs) ∙ ap (λ x. x ++ qs) split) l end
and_then-Follows {qs = qs} next (answered done rest split l) k =
    answered done (rest ++ qs) (sym (append_assoc done rest qs) ∙ ap (λ x. x ++ qs) split) l

pub ended_later : (e : Env) (s : Hunt) → ended e s ≡ true → ended e (tick s) ≡ true
unfolding ended tick
ended_later e s h = ground arith

picked-Follows :
    (e : Env) (s s' : Hunt) (done : Bool) (st : Stage)
    → s'.log ≡ s.log
    → (done ≡ true → ended e s' ≡ true)
    → Follows e [] s (allow done st, s')
unfolding allow
picked-Follows e s s' done nothing l end = whole (l ∙ sym (append-nil s.log))
picked-Follows e s s' done (found ip) l end = answered [] [] refl (l ∙ sym (append-nil s.log))
picked-Follows e s s' true over l end = ran_out [] [] refl (l ∙ sym (append-nil s.log)) (end refl)
picked-Follows e s s' false over l end = whole (l ∙ sym (append-nil s.log))

-- A step that writes nothing.
pub select-Follows : (e : Env) (s : Hunt) → Follows e [] s (select e s)
unfolding select tick
select-Follows e s = picked-Follows e s (tick s) (ended e s) (e.poll s.clock) refl (ended_later e s)
