-- ===== src/Gin/Setup.antt =====
-- gin/gin.go, gin/routergroup.go: any calls that set up an engine, one after the other, from the engine that `New` makes.
use gocore.Common.{List, [], ◌∷◌}
use gocore.Common.Run.{Run, ok, ◌>>=◌}
use gocore.Gin.Maps.{Str}
use gocore.Gin.Context.{Handler}
use gocore.Gin.Routes.{
  Group, Site, handle, match, any, static_file, use_handlers, set_no_route, set_no_method,
}
use gocore.Gin.Registered.{HasRoom}

pub data Call : Type 0 where
  uses no_routes no_methods : List Handler → Call
  handles : Group → Str → Str → List Handler → Call
  matches : Group → List Str → Str → List Handler → Call
  anys : Group → Str → List Handler → Call
  statics : Group → Str → Handler → Call

module _ (Node : Type 0) (root : Node) (grow : Node → Str → List Handler → Run Node)
    (join_paths : Str → Str → Str) where
  unfoldable pub one_call : Call → Site Node → Run (Site Node)
  one_call (uses hs) s = use_handlers Node root grow join_paths hs s
  one_call (no_routes hs) s = set_no_route Node root grow join_paths hs s
  one_call (no_methods hs) s = set_no_method Node root grow join_paths hs s
  one_call (handles g method path hs) s = handle Node root grow join_paths g method path hs s
  one_call (matches g methods path hs) s = match Node root grow join_paths g methods path hs s
  one_call (anys g path hs) s = any Node root grow join_paths g path hs s
  one_call (statics g path handler) s = static_file Node root grow join_paths g path handler s

  unfoldable pub run_calls : List Call → Site Node → Run (Site Node)
  run_calls [] s = ok s
  run_calls (c ∷ cs) s = one_call c s >>= λ s'. run_calls cs s'

  -- The engine has room for the path that the call has registered.
  abbrev pub RoomFor : Site Node → Call → Type 0
  RoomFor s (handles g method path hs) =
      HasRoom Node root grow join_paths (join_paths g.base_path path) s
  RoomFor s (anys g path hs) = HasRoom Node root grow join_paths (join_paths g.base_path path) s
  RoomFor s (statics g path handler) =
      HasRoom Node root grow join_paths (join_paths g.base_path path) s
  RoomFor s c = Unit
