-- ===== src/Pages.antt =====
-- app/main.py, app/auth.py and app/templating.py: the session of a browser, the pages, the sign-in, and
-- what a failure of a request becomes.
pub mod Response
pub mod Auth
pub mod AuthLaws
pub mod Serve
pub mod Browser
pub mod ServeLaws
pub mod Redirects
pub mod History
pub mod SignedIn
mod Examples
