-- ===== src/Compiler/Graph/Loop.antt =====
-- The loop of `compile_internal` over the pipelines: which ids it lets through.
use caml.Base.{
  ◌≡◌, ◌≢◌, refl, sym, ◌↔◌, false, Option, List, [], ◌∷◌, map, ok, arith, All, >>=-eq-ok, reject_if,
  reject_if-eq-ok,
}
use caml.Compiler.Graph.{member, compile_pipelines}
use caml.Compiler.Host.{HostCapabilities}
use caml.Compiler.Overlay.{Variables}
use caml.Compiler.Pipeline.Shape.{compile_pipeline-Keeps}
use caml.Compiler.Pipeline.{compile_pipeline, validate_pipeline}
use caml.Compiler.Types.{CompiledPipeline}
use caml.Frontend.{PipelineNode, CamlManifest}
use caml.Text.Equality.{text_eq_iff}
use caml.Text.{Text}

abbrev pub node_ids : List PipelineNode → List Text
node_ids = map λ p. p.id

abbrev pub compiled_ids : List CompiledPipeline → List Text
compiled_ids = map λ c. c.id

-- No text stands twice.
abbrev pub Unique : List Text → Type 0
Unique [] = Unit {0}
Unique (x ∷ xs) = All (λ y. y ≢ x) xs × Unique xs

member_iff : (x : Text) (seen : List Text) → (member x seen ≡ false) ↔ All (λ y. y ≢ x) seen
unfolding member
member_iff x [] = ground arith
member_iff x (y ∷ seen) = ground (arith, text_eq_iff y x, member_iff x seen)

-- Every id is new to `seen`, to which the ids before it are added.
abbrev AreNew : List Text → List Text → Type 0
AreNew seen [] = Unit {0}
AreNew seen (x ∷ xs) = (member x seen ≡ false) × AreNew (x ∷ seen) xs

abbrev Avoid : List Text → List Text → Type 0
Avoid seen xs = All (λ x. All (λ y. y ≢ x) seen) xs

Avoid-cons :
    (x : Text) (seen xs : List Text) → Avoid (x ∷ seen) xs ↔ (All (λ y. y ≢ x) xs × Avoid seen xs)
Avoid-cons x seen [] = ((λ h. (tt, tt)), (λ h. tt))
Avoid-cons x seen (z ∷ xs) =
    let ih = Avoid-cons x seen xs in
    (
      λ h. (((λ e. h.0.0 (sym e)), (ih.0 h.1).0), (h.0.1, (ih.0 h.1).1)),
      λ h. (((λ e. h.0.0 (sym e)), h.1.0), ih.1 (h.0.1, h.1.1)),
    )

AreNew-iff : (seen xs : List Text) → AreNew seen xs ↔ (Avoid seen xs × Unique xs)
AreNew-iff seen [] = ((λ h. (tt, tt)), (λ h. tt))
AreNew-iff seen (x ∷ xs) =
    let ih = AreNew-iff (x ∷ seen) xs in
    let split = Avoid-cons x seen xs in
    let head = member_iff x seen in
    (
      λ h. let both = ih.0 h.1 in ((head.0 h.0, (split.0 both.0).1), ((split.0 both.0).0, both.1)),
      λ h. (head.1 h.0.0, ih.1 (split.1 (h.1.0, h.0.1), h.1.1)),
    )

Avoid-nil : (xs : List Text) → Avoid [] xs
Avoid-nil [] = tt
Avoid-nil (x ∷ xs) = (tt, Avoid-nil xs)

-- Each pipeline is valid and compiles to its counterpart.
abbrev pub AllCompile :
    CamlManifest
    → Option HostCapabilities
    → Variables
    → List PipelineNode
    → List CompiledPipeline
    → Type 0
AllCompile m caps vars [] [] = Unit {0}
AllCompile m caps vars [] (c ∷ cs) = ⊥
AllCompile m caps vars (p ∷ ps) [] = ⊥
AllCompile m caps vars (p ∷ ps) (c ∷ cs) =
    (validate_pipeline m p caps ≡ ok tt)
    × (compile_pipeline p vars ≡ ok c)
    × AllCompile m caps vars ps cs

module _ (m : CamlManifest) (caps : Option HostCapabilities) (vars : Variables) where
  compile_pipelines-AllCompile :
      (seen : List Text) (ps : List PipelineNode) (cs : List CompiledPipeline)
      → compile_pipelines m caps vars seen ps ≡ ok cs
      → AreNew seen (node_ids ps) × AllCompile m caps vars ps cs
  unfolding compile_pipelines
  compile_pipelines-AllCompile seen [] [] h = (tt, tt)
  compile_pipelines-AllCompile seen [] (c ∷ cs) h = cc
  compile_pipelines-AllCompile seen (p ∷ ps) [] h =
      let (_, _, h1) = >>=-eq-ok (reject_if (member p.id seen) _) _ h in
      let (_, _, h2) = >>=-eq-ok (validate_pipeline m p caps) _ h1 in
      let (c, _, h3) = >>=-eq-ok (compile_pipeline p vars) _ h2 in
      let (rest, _, h4) = >>=-eq-ok (compile_pipelines m caps vars (p.id ∷ seen) ps) _ h3 in cc
  compile_pipelines-AllCompile seen (p ∷ ps) (c ∷ cs) h =
      let (_, e1, h1) = >>=-eq-ok (reject_if (member p.id seen) _) _ h in
      let (_, e2, h2) = >>=-eq-ok (validate_pipeline m p caps) _ h1 in
      let (c', e3, h3) = >>=-eq-ok (compile_pipeline p vars) _ h2 in
      let (rest, e4, h4) = >>=-eq-ok (compile_pipelines m caps vars (p.id ∷ seen) ps) _ h3 in
      let head : c' ≡ c = cc in
      let tail : rest ≡ cs = cc in
      let (new, all) = compile_pipelines-AllCompile (p.id ∷ seen) ps cs (rw tail at e4) in
      ((reject_if-eq-ok _ _ e1, new), (e2, rw head at e3, all))

  AllCompile-compile_pipelines :
      (seen : List Text) (ps : List PipelineNode) (cs : List CompiledPipeline)
      → AreNew seen (node_ids ps)
      → AllCompile m caps vars ps cs
      → compile_pipelines m caps vars seen ps ≡ ok cs
  unfolding compile_pipelines
  AllCompile-compile_pipelines seen [] [] n a = refl
  AllCompile-compile_pipelines seen [] (c ∷ cs) n a = absurd a
  AllCompile-compile_pipelines seen (p ∷ ps) [] n a = absurd a
  AllCompile-compile_pipelines seen (p ∷ ps) (c ∷ cs) n a =
      rw (n.0, a.0, a.1, AllCompile-compile_pipelines (p.id ∷ seen) ps cs n.1 a.2)

  -- The loop succeeds with `cs` exactly if no id stands twice and each pipeline is valid and
  -- compiles to its counterpart in `cs`.
  pub compile_pipelines_iff :
      (ps : List PipelineNode) (cs : List CompiledPipeline)
      → (compile_pipelines m caps vars [] ps ≡ ok cs)
        ↔ (Unique (node_ids ps) × AllCompile m caps vars ps cs)
  compile_pipelines_iff ps cs = (
    λ h.
        let (new, all) = compile_pipelines-AllCompile [] ps cs h in
        (((AreNew-iff [] (node_ids ps)).0 new).1, all),
    λ h.
        AllCompile-compile_pipelines [] ps cs
          ((AreNew-iff [] (node_ids ps)).1 (Avoid-nil (node_ids ps), h.0)) h.1,
  )

  -- A property of compiled pipelines that each single compilation gives.
  pub AllCompile-All :
      (P : CompiledPipeline → Type 0)
      → ((p : PipelineNode) (c : CompiledPipeline)
          → validate_pipeline m p caps ≡ ok tt
          → compile_pipeline p vars ≡ ok c
          → P c)
      → (ps : List PipelineNode) (cs : List CompiledPipeline) → AllCompile m caps vars ps cs
      → All P cs
  AllCompile-All P f [] [] a = tt
  AllCompile-All P f [] (c ∷ cs) a = absurd a
  AllCompile-All P f (p ∷ ps) [] a = absurd a
  AllCompile-All P f (p ∷ ps) (c ∷ cs) a = (f p c a.0 a.1, AllCompile-All P f ps cs a.2)

  pub AllCompile-ids :
      (ps : List PipelineNode) (cs : List CompiledPipeline)
      → AllCompile m caps vars ps cs
      → compiled_ids cs ≡ node_ids ps
  AllCompile-ids [] [] a = refl
  AllCompile-ids [] (c ∷ cs) a = absurd a
  AllCompile-ids (p ∷ ps) [] a = absurd a
  AllCompile-ids (p ∷ ps) (c ∷ cs) a =
      cc ((compile_pipeline-Keeps p vars c a.1).same_id, AllCompile-ids ps cs a.2)
