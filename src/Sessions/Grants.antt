-- ===== src/Sessions/Grants.antt =====
-- Which permissions sanitizeGrantedPermissions grants.
