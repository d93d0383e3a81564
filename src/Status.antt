-- ===== src/Status.antt =====
-- include/ishizue/isz.h, `isz_error`, and src/util/isz_errors.c, `isz_strerror`.
use Prim.Native.String.{String}

-- The codes that the library's calls return; `status_ok` is ISZ_OK.
pub data Status : Type 0 where
  status_ok commit_failed commit_pending resource_limit surface_no_plane_slot : Status
  plane_unavail transform_unsupported output_disconnected invalid_dmabuf : Status
  client_disconnected invalid_arg feature_unavail no_memory drm_master : Status
  client_too_slow access_denied : Status

-- `isz_strerror`, at the codes of the enumeration.
strerror : Status → String
strerror status_ok = "success"
strerror commit_failed = "atomic commit failed, state rolled back"
strerror commit_pending = "commit already pending on this output"
strerror resource_limit = "build-time resource limit exceeded"
strerror surface_no_plane_slot = "surface has no plane slot assigned"
strerror plane_unavail = "requested plane type unavailable"
strerror transform_unsupported = "transform unsupported by assigned plane"
strerror output_disconnected = "output has been removed"
strerror invalid_dmabuf = "invalid DMA-BUF fd or format"
strerror client_disconnected = "client has disconnected"
strerror invalid_arg = "invalid argument"
strerror feature_unavail = "feature not built in or unavailable"
strerror no_memory = "out of memory"
strerror drm_master = "DRM master acquisition failed"
strerror client_too_slow = "client event queue overflowed"
strerror access_denied = "access denied"
