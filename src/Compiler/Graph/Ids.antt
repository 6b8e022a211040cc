-- ===== src/Compiler/Graph/Ids.antt =====
-- What a compiled graph keeps of the manifest: its pipelines, their order and their ids.
use caml.Base.{◌≡◌, Option, [], ok, >>=-eq-ok}
use caml.Compiler.Graph.Budget.{plan_graph-pipelines}
use caml.Compiler.Graph.Loop.{
  node_ids, compiled_ids, Unique, AllCompile, compile_pipelines_iff, AllCompile-ids,
}
use caml.Compiler.Graph.{check_host, compile_pipelines, plan_graph, compile_internal}
use caml.Compiler.Host.{HostCapabilities}
use caml.Compiler.Overlay.{Variables}
use caml.Compiler.Types.{CompiledGraph}
use caml.Frontend.{CamlManifest}

module _ (m : CamlManifest) (caps : Option HostCapabilities) (vars : Variables) where
  -- What a successful compilation went through.
  pub compile_internal-cases :
      (g : CompiledGraph)
      → compile_internal m caps vars ≡ ok g
      → (check_host m.system.hardware_target caps ≡ ok tt)
        × Unique (node_ids m.pipelines)
        × AllCompile m caps vars m.pipelines g.pipelines
        × (plan_graph m.system g.pipelines ≡ ok g)
  unfolding compile_internal
  compile_internal-cases g h =
      let (_, e1, h1) = >>=-eq-ok (check_host m.system.hardware_target caps) _ h in
      let (cs, e2, h2) = >>=-eq-ok (compile_pipelines m caps vars [] m.pipelines) _ h1 in
      let (unique, all) = (compile_pipelines_iff m caps vars m.pipelines cs).0 e2 in
      let same = plan_graph-pipelines m.system cs g h2 in
      (e1, unique, rw same at all, rw same at h2)

  -- A graph has the pipelines of the manifest, by id and in their order, and no id twice.
  pub compile_internal-ids :
      (g : CompiledGraph)
      → compile_internal m caps vars ≡ ok g
      → (compiled_ids g.pipelines ≡ node_ids m.pipelines) × Unique (compiled_ids g.pipelines)
  compile_internal-ids g h =
      let (_, unique, all, _) = compile_internal-cases g h in
      let same = AllCompile-ids m caps vars m.pipelines g.pipelines all in (same, rw same unique)
