-- ===== src/Stream/Window/Passes.antt =====
-- fetchWindow: what a window and the cache hold after it, whatever the CDN answers.
use torbox_fuse_go.Stream.Window.Sane.{Sane}
