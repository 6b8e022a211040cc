-- ===== src/Compiler/Host/Composite.antt =====
-- A composite probe reports the join of what its probes report.
use caml.Base.{◌≡◌, refl, ◌↔◌, ◌⊎◌, inl, inr, List, [], ◌∷◌, Result, ok, err, All, >>=-eq-ok}
use caml.Compiler.Host.Merge.{Le, merge-IsJoin, merge_clash, Le-refl, Le-trans, Le-antisym}
use caml.Compiler.Host.{
  HostCapabilities, no_capabilities, CapabilityProbe, merge, merge_probes, CompositeCapabilityProbe,
  composite_probe,
}
use caml.Compiler.Types.{CompileError}
use caml.Frontend.{HardwareTarget}

-- The probe succeeds, and `d` holds all that it reports.
abbrev ReportsWithin : HardwareTarget → HostCapabilities → CapabilityProbe → Type 0
ReportsWithin target d probe = (caps : HostCapabilities) × (probe target ≡ ok caps) × Le caps d

-- `m` is the least report above `start` that holds what every probe reports.
pub record IsLeastReport (target : HardwareTarget) (start : HostCapabilities)
    (probes : List CapabilityProbe) (m : HostCapabilities) : Type 0 where
  pub above_start : Le start m
  pub holds_all : All (ReportsWithin target m) probes
  pub least : (d : HostCapabilities) → Le start d → All (ReportsWithin target d) probes → Le m d

merge_cases :
    (r : Result CompileError HostCapabilities)
    → ((c : HostCapabilities) × (r ≡ ok c)) ⊎ ((e : CompileError) × (r ≡ err e))
merge_cases (ok c) = inl (c, refl)
merge_cases (err e) = inr (e, refl)

within_same :
    (target : HardwareTarget) (d caps : HostCapabilities) (probe : CapabilityProbe)
    → probe target ≡ ok caps
    → ReportsWithin target d probe
    → Le caps d
within_same target d caps probe e (caps', e', le) = let same : caps ≡ caps' = cc in rw same le

module _ (target : HardwareTarget) where
  merge_probes-least :
      (probes : List CapabilityProbe) (start m : HostCapabilities)
      → merge_probes target start probes ≡ ok m
      → IsLeastReport target start probes m
  unfolding merge_probes
  merge_probes-least [] start m h =
      let same : m ≡ start = cc in
      record { above_start = rw same (Le-refl start); holds_all = tt; least = λ d f _. rw same f }
  merge_probes-least (probe ∷ probes) start m h =
      let (caps, hc, h1) = >>=-eq-ok (probe target) _ h in
      let (next, hn, h2) = >>=-eq-ok (merge start caps) _ h1 in
      let join = merge-IsJoin start caps next hn in
      let rest = merge_probes-least probes next m h2 in
      record {
        above_start = Le-trans start next m join.above_left rest.above_start;
        holds_all =
            ((caps, hc, Le-trans caps next m join.above_right rest.above_start), rest.holds_all);
        least = λ d f all.
            rest.least d (join.least d f (within_same target d caps probe hc all.0)) all.1;
      }

  least-merge_probes :
      (probes : List CapabilityProbe) (start m : HostCapabilities)
      → IsLeastReport target start probes m
      → merge_probes target start probes ≡ ok m
  unfolding merge_probes
  least-merge_probes [] start m h =
      let same : start ≡ m = Le-antisym start m h.above_start (h.least start (Le-refl start) tt) in
      rw same
  least-merge_probes (probe ∷ probes) start m h =
      let (caps, hc, le) = h.holds_all.0 in
      elim (merge_cases (merge start caps)) [
        | inr (e, clash) ↦ absurd (merge_clash start caps clash m h.above_start le)
        | inl (next, hn) ↦
            let join = merge-IsJoin start caps next hn in
            rw (hc, hn)
              (least-merge_probes probes next m (record {
                above_start = join.least m h.above_start le;
                holds_all = h.holds_all.1;
                least = λ d f all.
                    h.least d (Le-trans start next d join.above_left f)
                      ((caps, hc, Le-trans caps next d join.above_right f), all);
              }))
      ]

-- A composite probe succeeds with `m` exactly if each of its probes succeeds and `m` is the least
-- report that holds what they report.
pub composite_probe-IsLeastReport :
    (c : CompositeCapabilityProbe) (target : HardwareTarget) (m : HostCapabilities)
    → (composite_probe c target ≡ ok m) ↔ IsLeastReport target no_capabilities c.probes m
unfolding composite_probe
composite_probe-IsLeastReport c target m = (
  merge_probes-least target c.probes no_capabilities m,
  least-merge_probes target c.probes no_capabilities m,
)
