-- ===== src/Agb/Irrevocable/Order.antt =====
-- Irrevocable change is a preorder.
use vantage_bft.Base.{
  ◌≡◌, refl, subst, ◌∙◌, inl, inr, true, Option, none, some, arith, Bool-cases, ◌==◌, ==_iff,
}
use vantage_bft.Base.Map.{Map, lookup, insert, lookup-insert}
use vantage_bft.Committee.{PublicKey}
use vantage_bft.Agb.Types.{ReadyGrade}
use vantage_bft.Agb.State.{Lock, ReadyStatement, ViewState}
use vantage_bft.Agb.Statements.{valid_refinement}
use vantage_bft.Agb.Respects.{Preorder}
use vantage_bft.Agb.Irrevocable.{KeptReady, SameLock, KeepsStatements, Irrevocable}

-- The statements, skip votes and lock are the same.
pub record SameStatements (s t : ViewState) : Type 0 where
  pub echo : t.echo_statements ≡ s.echo_statements
  pub ready : t.ready_statements ≡ s.ready_statements
  pub skip_vote : t.skip_vote_statements ≡ s.skip_vote_statements
  pub lock : t.lock ≡ s.lock

pub keeps_same : (s t : ViewState) → SameStatements s t → KeepsStatements s t
keeps_same s t e = record {
  echo = λ k st h. rw e.echo h;
  ready = λ k st h. rw (e.ready, h) (inl refl);
  skip_vote = λ k h. rw e.skip_vote h;
  lock = λ l h. rw (e.lock, h) (refl, refl, λ a. a);
}

-- What each part of a state keeps, where a step leaves it as it is.
pub ready_same :
    (s t : ViewState)
    → t.ready_statements ≡ s.ready_statements
    → (k : PublicKey) (st : ReadyStatement) → lookup k s.ready_statements ≡ some st
    → KeptReady st (lookup k t.ready_statements)
ready_same s t e k st h = rw (e, h) (inl refl)

pub lock_same :
    (s t : ViewState) → t.lock ≡ s.lock → (l : Lock) → s.lock ≡ some l → SameLock l t.lock
lock_same s t e l h = rw (e, h) (refl, refl, λ a. a)

-- A statement goes into the map where there is none, or where it refines the one there.
pub insert-KeptReady :
    (m : Map ReadyStatement) (k j : PublicKey) (st x : ReadyStatement)
    → ((old : ReadyStatement) → lookup k m ≡ some old → valid_refinement old st ≡ true)
    → lookup j m ≡ some x
    → KeptReady x (lookup j (insert k st m))
insert-KeptReady m k j st x valid h = rw (lookup-insert k j st m) (elim (Bool-cases (k == j)) [
  | inl e ↦ rw e (inr (valid x (rw ((==_iff k j).0 e) h)))
  | inr e ↦ rw (e, h) (inl refl)
])

refined_once :
    (a b c : ReadyStatement) → valid_refinement a b ≡ true → valid_refinement b c ≡ true → ⊥
unfolding valid_refinement
refined_once (ReadyStatement.graded p d ReadyGrade.mix) (ReadyStatement.graded q e ReadyGrade.mix) c
      h k =
    cc
refined_once a (ReadyStatement.graded q e g) c h k = ground arith
refined_once a ReadyStatement.no_ready c h k = ground arith

KeptReady-trans :
    (old : ReadyStatement) (o o' : Option ReadyStatement)
    → KeptReady old o
    → ((st : ReadyStatement) → o ≡ some st → KeptReady st o')
    → KeptReady old o'
KeptReady-trans old (some b) (some c) (inl e) k = subst (λ x. KeptReady x (some c)) e (k b refl)
KeptReady-trans old (some b) (some c) (inr v) k = elim (k b refl) [
  | inl e ↦ inr (rw e v)
  | inr v' ↦ absurd (refined_once old b c v v')
]
KeptReady-trans old (some b) none h k = k b refl
KeptReady-trans old none o' h k = absurd h

SameLock-trans :
    (l : Lock) (o o' : Option Lock)
    → SameLock l o
    → ((m : Lock) → o ≡ some m → SameLock m o')
    → SameLock l o'
SameLock-trans l (some m) (some n) (p, d, a) k =
    let (p', d', a') = k m refl in (p' ∙ p, d' ∙ d, λ h. a' (a h))
SameLock-trans l (some m) none h k = k m refl
SameLock-trans l none o' h k = absurd h

Irrevocable-refl : (s : ViewState) → Irrevocable s s
Irrevocable-refl s = record {
  marks = ground arith;
  results = ground arith;
  statements = keeps_same s s (ground arith);
}

Irrevocable-trans : (a b c : ViewState) → Irrevocable a b → Irrevocable b c → Irrevocable a c
Irrevocable-trans a b c p q = record {
  marks = ground arith;
  results = record {
    completed = λ x h. q.results.completed x (p.results.completed x h);
    directed = λ x h. q.results.directed x (p.results.directed x h);
    sealed = λ x h. q.results.sealed x (p.results.sealed x h);
  };
  statements = record {
    echo = λ k st h. q.statements.echo k st (p.statements.echo k st h);
    ready = λ k st h. KeptReady-trans st _ _ (p.statements.ready k st h) (q.statements.ready k);
    skip_vote = λ k h. q.statements.skip_vote k (p.statements.skip_vote k h);
    lock = λ l h. SameLock-trans l _ _ (p.statements.lock l h) q.statements.lock;
  };
}

pub Irrevocable-Preorder : Preorder Irrevocable
Irrevocable-Preorder = record { refl_at = Irrevocable-refl; trans_at = Irrevocable-trans }
