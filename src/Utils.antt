-- ===== src/Utils.antt =====
-- utils: the environment, paths, and the certificate of the web server.
pub mod Environment
pub mod Cert
