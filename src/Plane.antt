-- ===== src/Plane.antt =====
-- src/plane/: the callers a host's runtime holds, what nodes said for them, and the nonces a node
-- issues. The plane's listeners, lines and remote calls are not here.
pub mod Held
pub mod HeldLaws
pub mod Callers
pub mod Gives
pub mod Vouches
pub mod Fresh
pub mod FreshLaws
