-- ===== src/Nginx.antt =====
-- The NGINX configuration that operators supply (src/nginx/).
pub mod CustomCode
